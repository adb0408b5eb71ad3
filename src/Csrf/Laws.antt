-- ===== src/Csrf/Laws.antt =====
-- When a request passes, and that the token that was handed out is the one that is accepted.
use loon_site.Prelude.{
  ℕ, ◌≡◌, ◌≢◌, ◌↔◌, ◌⊎◌, List, ◌∷◌, any, ◌++◌, subst, ◌∙◌, sym, arith, refl, Bool, true, false,
  Option, none, some, [], ◌==◌, if◌then◌else◌, beq_ne, Bool-cases, inl, inr,
}
use loon_site.Prelude.Bytes.{Bytes, bytes_eq, bytes_beq_iff, codes}
use mathlib.Core.Option.{some-injective}
use loon_site.Prelude.Members.{In, any_equal-In}
use loon_site.Prelude.Text.{trim_space}
use loon_site.Csrf.{
  Method, post, put, patch, delete, other_method, CsrfRequest, passes, is_exempt, keyed_paths,
  changes_state, token_given, verdict_of, issue, csrf,
}

-- The routes that need no token, as the site has them.
abbrev pub open_routes : List Bytes
open_routes =
    codes "/api"
    ∷ codes "/rss"
    ∷ codes "/api/downloads/report"
    ∷ codes "/api/agent/register"
    ∷ codes "/api/agent/poll"
    ∷ codes "/api/agent/progress"
    ∷ codes "/api/agent/status"
    ∷ codes "/api/agent/complete"
    ∷ codes "/dev/focus"
    ∷ []

-- The token that a request is held to: the session's, or the new one of a session without.
abbrev pub HoldsTo : Option Bytes → Bytes → Bytes → Type 0
HoldsTo drawn session token =
    ((session ≢ []) × (session ≡ token)) ⊎ ((session ≡ []) × (drawn ≡ some token))

-- The form brings the token, or the form is blank and the header brings it.
abbrev pub Brings : (ℕ → Bool) → Bytes → CsrfRequest → Type 0
Brings space token r =
    ((trim_space space r.form_field ≢ []) × (trim_space space r.form_field ≡ token))
    ⊎ ((trim_space space r.form_field ≡ []) × (r.header ≡ token))

abbrev pub NeedsNoToken : Method → Type 0
NeedsNoToken m = (m ≢ post) × (m ≢ put) × (m ≢ patch) × (m ≢ delete)

any_then :
    (x y : Bytes) (xs : List Bytes)
    → (if any (λ p. x == p) xs then true else x == y) ≡ any (λ p. x == p) (xs ++ y ∷ [])
any_then x y [] = ground arith
any_then x y (z ∷ xs) = ground (arith, any_then x y xs)

exempt_iff : (path : Bytes) → (is_exempt path ≡ true) ↔ In path open_routes
unfolding is_exempt
exempt_iff path =
    let joined = any_then path (codes "/dev/focus") keyed_paths in
    let (to, from) = any_equal-In path open_routes in
    (λ h. to (sym joined ∙ h), λ at. joined ∙ from at)

changes_state_iff : (m : Method) → (changes_state m ≡ false) ↔ NeedsNoToken m
changes_state_iff post = (λ h. absurd (cc), λ n. absurd (n.0 refl))
changes_state_iff put = (λ h. absurd (cc), λ n. absurd (n.1 refl))
changes_state_iff patch = (λ h. absurd (cc), λ n. absurd (n.2 refl))
changes_state_iff delete = (λ h. absurd (cc), λ n. absurd (n.3 refl))
changes_state_iff other_method = (λ h. (λ e. cc, λ e. cc, λ e. cc, λ e. cc), λ n. refl)

module _ (space : ℕ → Bool) where
  given_iff :
      (token : Bytes) (r : CsrfRequest) → (token_given space r ≡ token) ↔ Brings space token r
  unfolding token_given
  given_iff token r =
      let form = trim_space space r.form_field in
      let (to, from) = bytes_beq_iff form [] in
      elim (Bool-cases (form == [])) [
        | inl blank ↦ rw blank (
          λ h. inr (to blank, h),
          λ b. elim b [
            | inl (filled, same) ↦ absurd (filled (to blank))
            | inr (none_there, same) ↦ same
          ],
        )
        | inr filled ↦
            let not_blank : form ≢ [] = λ e. (let yes = from e in cc) in
            rw filled (
              λ h. inl (not_blank, h),
              λ b. elim b [
                | inl (there, same) ↦ same
                | inr (blank, same) ↦ absurd (not_blank blank)
              ],
            )
      ]

  verdict_iff :
      (token : Bytes) (r : CsrfRequest)
      → (verdict_of space token r ≡ passes) ↔ (NeedsNoToken r.method ⊎ Brings space token r)
  unfolding verdict_of
  verdict_iff token r =
      let (quiet, calm) = changes_state_iff r.method in
      let (brought, brings) = given_iff token r in
      let (same, equal) = bytes_beq_iff (token_given space r) token in
      elim (Bool-cases (changes_state r.method)) [
        | inr reads ↦ rw reads (λ h. inl (quiet reads), λ h. refl)
        | inl writes ↦ elim (Bool-cases (token_given space r == token)) [
          | inl right ↦ rw (writes, right) (λ h. inr (brought (same right)), λ h. refl)
          | inr wrong ↦
              rw (writes, wrong)
                (
                  λ h. absurd (cc),
                  λ h. elim h [
                    | inl calm_one ↦ absurd (let w = calm calm_one in cc)
                    | inr b ↦ absurd (let w = equal (brings b) in cc)
                  ],
                )
        ]
      ]

  issue_iff :
      (drawn : Option Bytes) (saves : Bool) (r : CsrfRequest)
      → ((issue space drawn saves r).verdict ≡ passes)
        ↔ ((token : Bytes) × (drawn ≡ some token) × (NeedsNoToken r.method ⊎ Brings space token r))
  unfolding issue
  issue_iff none saves r = (λ h. absurd (cc), λ h. absurd (let e = h.1 in cc))
  issue_iff (some token) saves r =
      let (to, from) = verdict_iff token r in
      (
        λ h. (token, refl, to h),
        λ h. from (
            subst (λ t. NeedsNoToken r.method ⊎ Brings space t r) (some-injective _ _ (sym h.1))
              h.2),
      )

  -- A request reaches its handler exactly when its route is one of nine, or there is a token for
  -- its session, the one it has or else the new one, and the method is none of POST, PUT, PATCH and
  -- DELETE or the request brings that token: in its form, trimmed, or in the header when the form
  -- has none.
  pub csrf_passes_iff :
      (drawn : Option Bytes) (saves : Bool) (session : Bytes) (r : CsrfRequest)
      → ((csrf space drawn saves session r).verdict ≡ passes) ↔ (
          In r.full_path open_routes
          ⊎ ((token : Bytes) × HoldsTo drawn session token
              × (NeedsNoToken r.method ⊎ Brings space token r)))
  unfolding csrf
  csrf_passes_iff drawn saves session r =
      let (listed, free) = exempt_iff r.full_path in
      let (to, from) = bytes_beq_iff session [] in
      elim (Bool-cases (is_exempt r.full_path)) [
        | inl exempt ↦ rw exempt (λ h. inl (listed exempt), λ h. refl)
        | inr held ↦
            let not_listed : ¬ (In r.full_path open_routes) = λ at. (let w = free at in cc) in
            elim (Bool-cases (session == [])) [
              | inl fresh ↦
                  let (out, back) = issue_iff drawn saves r in
                  rw (held, fresh)
                    (
                      λ h. (let (token, drew, ok) = out h in inr (token, inr (to fresh, drew), ok)),
                      λ h. elim h [
                        | inl at ↦ absurd (not_listed at)
                        | inr (token, inl (known, same), ok) ↦ absurd (known (to fresh))
                        | inr (token, inr (blank, drew), ok) ↦ back (token, drew, ok)
                      ],
                    )
              | inr known ↦
                  let real : session ≢ [] = λ e. (let w = from e in cc) in
                  let (out, back) = verdict_iff session r in
                  rw (held, known)
                    (
                      λ h. inr (session, inl (real, refl), out h),
                      λ h. elim h [
                        | inl at ↦ absurd (not_listed at)
                        | inr (token, inl (there, same), ok) ↦
                            back
                              (subst (λ t. NeedsNoToken r.method ⊎ Brings space t r) (sym same) ok)
                        | inr (token, inr (blank, drew), ok) ↦ absurd (real blank)
                      ],
                    )
            ]
      ]

  verdict-brought :
      (token : Bytes) (r : CsrfRequest) → Brings space token r → verdict_of space token r ≡ passes
  verdict-brought token r brought = (verdict_iff token r).1 (inr brought)

  -- The page that a session first sees hands out a token with which the next form passes: when the
  -- page is no exempt route, the session is saved and the token is not blank, a request on the
  -- session that the page left behind is let through if it brings that token, whatever its route
  -- and its method.
  pub issued_token_passes :
      (token : Bytes) (drawn : Option Bytes) (saves : Bool) (page form : CsrfRequest)
      → is_exempt page.full_path ≡ false
      → token ≢ []
      → Brings space token form
      → let first = csrf space (some token) true [] page in
        (first.context_token ≡ some token)
        × ((csrf space drawn saves first.session_token form).verdict ≡ passes)
  unfolding csrf issue verdict_of
  issued_token_passes token drawn saves page form held real brought = rw held (
    refl,
    (elim (Bool-cases (is_exempt form.full_path)) [
      | inl free ↦ rw free refl
      | inr kept ↦ rw (kept, beq_ne token [] real) (verdict-brought token form brought)
    ]),
  )
