-- ===== src/CatalogChain/Similar/Laws.antt =====
-- `Similar` as a measure: the same both ways round, between 0 and 1, and blind to padding.
use loon_site.Prelude.{
  ℕ, ◌≤◌, ◌<◌, ◌≡◌, refl, sym, ◌∙◌, Bool, true, false, List, [], ◌∷◌, length, nat_eq, count_if,
  arith, beq_refl,
}
use loon_site.Prelude.Bytes.{Bytes, bytes_eq}
use loon_site.CatalogChain.Similar.{
  contains, uniq, uniq_from, hits_from, shorter, score, similar, tokens,
}
use loon_site.CatalogChain.Similar.Sets.{
  uniq-Once, contains-uniq, hits-count_if, count_if-ext, count_if-le-length, count_if_comm,
}

hits_comm : (ta tb : List Bytes) → hits_from tb [] ta ≡ hits_from ta [] tb
hits_comm ta tb =
    hits-count_if tb ta
    ∙ count_if-ext _ _ (uniq ta) (λ t. sym (contains-uniq t tb))
    ∙ count_if_comm (uniq ta) (uniq tb) (uniq-Once ta) (uniq-Once tb)
    ∙ count_if-ext _ _ (uniq tb) (λ t. contains-uniq t ta)
    ∙ sym (hits-count_if ta tb)

hits-le : (ta tb : List Bytes) → hits_from tb [] ta ≤ length (uniq ta)
hits-le ta tb =
    omega (arith, hits-count_if tb ta, count_if-le-length (λ t. contains t tb) (uniq ta))

uniq-pos : (ts : List Bytes) → 0 < length ts → 0 < length (uniq ts)
unfolding uniq uniq_from
uniq-pos [] h = h
uniq-pos (t ∷ ts) h = omega arith

score_comm : (ta tb : List Bytes) → score ta tb ≡ score tb ta
unfolding score shorter
score_comm ta tb = ground (arith, hits_comm ta tb)

score_bounds :
    (ta tb : List Bytes) → ((score ta tb).num ≤ (score ta tb).den) × (0 < (score ta tb).den)
unfolding score shorter
score_bounds ta tb =
    ground (arith, hits_comm ta tb, hits-le ta tb, hits-le tb ta, uniq-pos ta, uniq-pos tb)

-- Every word of the one is a word of the other.
abbrev pub Within : List Bytes → List Bytes → Type 0
Within ts us = (t : Bytes) → contains t ts ≡ true → contains t us ≡ true

count_if_all :
    (p : Bytes → Bool) (ts : List Bytes)
    → ((t : Bytes) → contains t ts ≡ true → p t ≡ true)
    → count_if p ts ≡ length ts
count_if_all p [] h = refl
count_if_all p (t ∷ ts) h =
    let here : p t ≡ true = h t (rw (beq_refl t)) in
    let rest = count_if_all p ts (λ u m. h u (ground (arith, m))) in ground arith

score_padded :
    (ta tb : List Bytes) → 0 < length tb → Within tb ta → (score ta tb).num ≡ (score ta tb).den
unfolding score shorter
score_padded ta [] some_word within = elim some_word [ ]
score_padded [] (u ∷ tb) some_word within =
    let none_there : false ≡ true = within u (rw (beq_refl u)) in cc
score_padded (t ∷ ta) (u ∷ tb) some_word within =
    let all : hits_from (t ∷ ta) [] (u ∷ tb) ≡ length (uniq (u ∷ tb)) =
      hits-count_if (t ∷ ta) (u ∷ tb)
      ∙ count_if_all _ (uniq (u ∷ tb)) (λ v m. within v (sym (contains-uniq v (u ∷ tb)) ∙ m)) in
    ground (arith, hits_comm (t ∷ ta) (u ∷ tb), hits-le (t ∷ ta) (u ∷ tb))

-- The score does not depend on which title comes first.
pub similar_comm : (lower : ℕ → ℕ) (a b : Bytes) → similar lower a b ≡ similar lower b a
unfolding similar
similar_comm lower a b = score_comm (tokens lower a) (tokens lower b)

-- The score is a fraction from 0 to 1.
pub similar_bounds :
    (lower : ℕ → ℕ) (a b : Bytes)
    → ((similar lower a b).num ≤ (similar lower a b).den) × (0 < (similar lower a b).den)
unfolding similar
similar_bounds lower a b = score_bounds (tokens lower a) (tokens lower b)

-- A release title that holds every word of a catalogue title with at least one word scores 1,
-- however much else it carries.
pub similar_padded :
    (lower : ℕ → ℕ) (release title : Bytes)
    → 0 < length (tokens lower title)
    → Within (tokens lower title) (tokens lower release)
    → (similar lower title release).num ≡ (similar lower title release).den
unfolding similar
similar_padded lower release title words within =
    rw (score_comm (tokens lower title) (tokens lower release))
      (score_padded (tokens lower release) (tokens lower title) words within)
