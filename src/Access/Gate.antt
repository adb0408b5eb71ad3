-- ===== src/Access/Gate.antt =====
-- The gate of a members-only site.
use loon_site.Prelude.{
  ◌≡◌, ◌↔◌, ◌⊎◌, List, ◌||◌, Bool-cases, nat_beq_iff, inl, inr, refl, Bool, true, false, [], ◌∷◌,
  ◌++◌, String, arith, ◌==◌, nat_eq, string_eq, eq_iff, if◌then◌else◌,
}
use loon_site.Prelude.Bytes.{Bytes, codes, bytes_eq, bytes_beq_iff}
use loon_site.Prelude.Members.{In}
use loon_site.Access.{one_of, has_prefix, always_public, browsing_gate}

-- The pages that everybody may read, and the places below which everybody may read.
abbrev pub open_pages : List Bytes
open_pages =
    codes "/login"
    ∷ codes "/logout"
    ∷ codes "/register"
    ∷ codes "/forgot"
    ∷ codes "/reset"
    ∷ codes "/healthz"
    ∷ codes "/robots.txt"
    ∷ codes "/favicon.ico"
    ∷ codes "/api"
    ∷ codes "/rss"
    ∷ []

abbrev pub open_places : List Bytes
open_places = codes "/static/" ∷ codes "/api/" ∷ codes "/rss/" ∷ codes "/verify/" ∷ []

-- The path lies below one of the places.
abbrev pub LiesBelow : Bytes → List Bytes → Type 0
LiesBelow path [] = ⊥
LiesBelow path (place ∷ places) = ((rest : Bytes) × (path ≡ place ++ rest)) ⊎ LiesBelow path places

abbrev pub IsOpen : Bytes → Type 0
IsOpen path = In path open_pages ⊎ LiesBelow path open_places

has_prefix_iff :
    (s place : Bytes) → (has_prefix s place ≡ true) ↔ ((rest : Bytes) × (s ≡ place ++ rest))
unfolding has_prefix
has_prefix_iff s [] = (λ h. (s, refl), λ h. refl)
has_prefix_iff [] (p ∷ place) = (λ h. absurd (cc), λ h. absurd (let e = h.1 in cc))
has_prefix_iff (c ∷ s) (p ∷ place) =
    let (to, from) = has_prefix_iff s place in
    let (same, equal) = nat_beq_iff c p in
    (
      λ h.
          let first : c ≡ p = ground arith in
          let others : has_prefix s place ≡ true = ground arith in
          let (rest, e) = to others in (rest, cc (first, e)),
      λ h.
          let (rest, e) = h in
          let first : c ≡ p = ground (arith, e) in
          let others : s ≡ place ++ rest = ground (arith, e) in
          rw (equal first, from (rest, others)) refl,
    )

one_of_iff : (path : Bytes) (pages : List Bytes) → (one_of path pages ≡ true) ↔ In path pages
one_of_iff path [] = ground arith
one_of_iff path (d ∷ pages) = ground (arith, bytes_beq_iff path d, one_of_iff path pages)

below_one : Bytes → List Bytes → Bool
below_one path [] = false
below_one path (place ∷ places) = has_prefix path place || below_one path places

below_one_iff :
    (path : Bytes) (places : List Bytes) → (below_one path places ≡ true) ↔ LiesBelow path places
unfolding below_one
below_one_iff path [] = ground arith
below_one_iff path (place ∷ places) =
    let (to, from) = has_prefix_iff path place in
    let (some_below, more) = below_one_iff path places in
    elim (Bool-cases (has_prefix path place)) [
      | inl here ↦ rw here (λ h. inl (to here), λ h. refl)
      | inr other ↦ rw other (
        λ h. inr (some_below h),
        λ h. elim h [ inl first ↦ absurd (let w = from first in cc) | inr later ↦ more later ],
      )
    ]

-- The tests of `alwaysPublic`, pages first.
tests_in_order :
    (path : Bytes) → always_public path ≡ (one_of path open_pages || below_one path open_places)
unfolding always_public below_one
tests_in_order path = ground arith

always_public_iff : (path : Bytes) → (always_public path ≡ true) ↔ IsOpen path
always_public_iff path =
    let (page, listed) = one_of_iff path open_pages in
    let (place, below) = below_one_iff path open_places in
    rw (tests_in_order path) (elim (Bool-cases (one_of path open_pages)) [
      | inl here ↦ rw here (λ h. inl (page here), λ h. refl)
      | inr other ↦ rw other (
        λ h. inr (place h),
        λ h. elim h [ inl at ↦ absurd (let w = listed at in cc) | inr lies ↦ below lies ],
      )
    ])

-- A request is turned away exactly when the site is for members, nobody is signed in, and its path
-- is none of ten open pages and lies below none of four open places; it is then sent to the login
-- page with its own address, query included, and otherwise nowhere.
pub gate_refused_iff :
    (query_escape : Bytes → Bytes) (mode : String) (path request_uri : Bytes) (signed_in : Bool)
    → (((browsing_gate query_escape mode path request_uri signed_in).0 ≡ false)
        ↔ ((mode ≡ "members") × (signed_in ≡ false) × ¬ (IsOpen path)))
      × ((browsing_gate query_escape mode path request_uri signed_in).1 ≡ (
          if (browsing_gate query_escape mode path request_uri signed_in).0
          then []
          else codes "/login?next=" ++ query_escape request_uri))
unfolding browsing_gate
gate_refused_iff query_escape mode path request_uri signed_in =
    let (opens, open_path) = always_public_iff path in
    elim (Bool-cases (always_public path)) [
      | inl public ↦
          rw public
            ((λ h. absurd (ground (arith, h)), λ h. absurd (h.2 (opens public))), ground arith)
      | inr held ↦
          let shut : ¬ (IsOpen path) = λ o. (let w = open_path o in cc) in
          let (same, equal) = eq_iff mode "members" in
          elim (Bool-cases (mode == "members")) [
            | inr other ↦
                rw (held, other)
                  ((λ h. absurd (ground arith), λ h. absurd (let w = equal h.0 in cc)), refl)
            | inl members ↦ elim (Bool-cases signed_in) [
              | inl known ↦
                  rw (held, members, known)
                    ((λ h. absurd (ground arith), λ h. absurd (let w = h.1 in cc)), refl)
              | inr unknown ↦
                  rw (held, members, unknown) ((λ h. (same members, refl, shut), λ h. refl), refl)
            ]
          ]
    ]

-- Nothing more, or a new segment.
abbrev pub ends_segment : Bytes → Bool
ends_segment [] = true
ends_segment (c ∷ rest) = c == b'/'

-- The keyed endpoints are open as whole path segments: behind `/api` and `/rss` nothing or a slash
-- has to follow, so no other path that starts alike is open.
pub always_public-segment :
    (rest : Bytes)
    → (always_public (codes "/api" ++ rest) ≡ ends_segment rest)
      × (always_public (codes "/rss" ++ rest) ≡ ends_segment rest)
unfolding always_public has_prefix
always_public-segment [] = (refl, refl)
always_public-segment (c ∷ rest) = ground arith
