-- ===== src/Invites/Chain/Recruiters.antt =====
-- The rounds of the recruiters' query, which asks for all roots at once, are those of each root.
use loon_site.Prelude.{
  ℕ, zero, suc, ◌+◌, ◌≤◌, ◌<◌, ◌≡◌, refl, sym, ap, ◌∙◌, some, [], ◌∷◌, ◌++◌, map, ltb, ◌==◌, nat_eq,
  if◌then◌else◌, All, All-append, arith, Bool-cases, inl, inr,
}
use loon_site.Invites.Chain.{
  Edges, Rows, RankRows, rows_from, next_round, rank_first, rank_next, rank_query, rows_of_root,
}
use loon_site.Invites.Chain.Rounds.{InRange, rounds, rows_from-InRange}

rows_of_root-append :
    (root : ℕ) (a b : RankRows)
    → rows_of_root root (a ++ b) ≡ rows_of_root root a ++ rows_of_root root b
rows_of_root-append root [] b = refl
rows_of_root-append root (t ∷ a) b = elim (Bool-cases (t.0 == root)) [
  | inl own ↦ rw own (ap (λ rows. t.1 ∷ rows) (rows_of_root-append root a b))
  | inr other ↦ rw other (rows_of_root-append root a b)
]

rows_of_root-own :
    (root : ℕ) (own : ℕ) (rows : Rows)
    → rows_of_root root (map (λ t. (own, t)) rows) ≡ (if own == root then rows else [])
rows_of_root-own root own [] = ground arith
rows_of_root-own root own (t ∷ rows) = elim (Bool-cases (own == root)) [
  | inl same ↦
      let rest : rows_of_root root (map (λ t. (own, t)) rows) ≡ rows =
        rows_of_root-own root own rows ∙ rw same refl in
      rw same (ap (λ r. t ∷ r) rest)
  | inr other ↦ rw other (rows_of_root-own root own rows ∙ rw other refl)
]

pub rank_first-rows :
    (root : ℕ) (edges : Edges) → rows_of_root root (rank_first edges) ≡ rows_from root 1 edges
unfolding rank_first rows_from
rank_first-rows root [] = refl
rank_first-rows root ((a, b) ∷ edges) = elim (Bool-cases (a == root)) [
  | inl own ↦ rw own (ap (λ rows. (b, 1) ∷ rows) (rank_first-rows root edges))
  | inr other ↦ rw other (rank_first-rows root edges)
]

module _ (limit : ℕ) (edges : Edges) where
  rank_next-rows :
      (root : ℕ) (w : RankRows)
      → rows_of_root root (rank_next limit edges w) ≡ next_round limit edges (rows_of_root root w)
  unfolding rank_next next_round
  rank_next-rows root [] = refl
  rank_next-rows root ((own, (m, d)) ∷ w) =
      let rest = rank_next-rows root w in
      let found = rows_from m (d + 1) edges in
      let split =
        rows_of_root-append root (map (λ t. (own, t)) found) (rank_next limit edges w)
        ∙ ap (λ rows. rows ++ rows_of_root root (rank_next limit edges w))
            (rows_of_root-own root own found) in
      elim (Bool-cases (own == root)) [
        | inl same ↦ elim (Bool-cases (ltb d limit)) [
          | inl deeper ↦
              let own_rows : rows_of_root root ((own, (m, d)) ∷ w) ≡ (m, d) ∷ rows_of_root root w =
                rw same refl in
              let paired : rows_of_root root (map (λ t. (own, t)) found ++ rank_next limit edges w)
                  ≡ found ++ next_round limit edges (rows_of_root root w) =
                split ∙ rw (same, rest) refl in
              let joined : next_round limit edges ((m, d) ∷ rows_of_root root w)
                  ≡ found ++ next_round limit edges (rows_of_root root w) =
                rw deeper refl in
              let here : rows_of_root root (rank_next limit edges ((own, (m, d)) ∷ w))
                  ≡ rows_of_root root (map (λ t. (own, t)) found ++ rank_next limit edges w) =
                rw deeper refl in
              here ∙ paired ∙ sym joined ∙ ap (next_round limit edges) (sym own_rows)
          | inr end ↦ rw (end, same) (rest ∙ rw end refl)
        ]
        | inr other ↦ elim (Bool-cases (ltb d limit)) [
          | inl deeper ↦ rw (deeper, other) (split ∙ rw (other, rest) refl)
          | inr end ↦ rw (end, other) rest
        ]
      ]

  abbrev pub rank_rounds : ℕ → RankRows → RankRows
  rank_rounds zero w = []
  rank_rounds (suc n) w = w ++ rank_rounds n (rank_next limit edges w)

  pub rank_rounds-rows :
      (n root : ℕ) (w : RankRows)
      → rows_of_root root (rank_rounds n w) ≡ rounds limit edges n (rows_of_root root w)
  rank_rounds-rows zero root w = refl
  rank_rounds-rows (suc n) root w =
      rows_of_root-append root w (rank_rounds n (rank_next limit edges w))
      ∙ ap (λ rows. rows_of_root root w ++ rows)
          (rank_rounds-rows n root (rank_next limit edges w)
            ∙ ap (rounds limit edges n) (rank_next-rows root w))

  abbrev pub InRank : ℕ → ℕ × (ℕ × ℕ) → Type 0
  InRank k t = InRange limit edges k t.1

  under_root-InRank :
      (k root : ℕ) (found : Rows)
      → All (InRange limit edges k) found
      → All (InRank k) (map (λ t. (root, t)) found)
  under_root-InRank k root [] h = tt
  under_root-InRank k root (t ∷ found) (here, h) = (here, under_root-InRank k root found h)

  rank_next-InRank :
      (k : ℕ) (w : RankRows) → All (InRank k) w → All (InRank (suc k)) (rank_next limit edges w)
  unfolding rank_next
  rank_next-InRank k [] h = tt
  rank_next-InRank k ((root, (m, d)) ∷ w) ((low, high), h) = elim (Bool-cases (ltb d limit)) [
    | inl below ↦ rw below (
        All-append (InRank (suc k)) (map (λ t. (root, t)) (rows_from m (d + 1) edges)) _
          (under_root-InRank (suc k) root (rows_from m (d + 1) edges)
            (rows_from-InRange limit edges (suc k) m (d + 1) edges (omega arith) (ground arith)))
          (rank_next-InRank k w h))
    | inr end ↦ rw end (rank_next-InRank k w h)
  ]

  rank_rounds-nil : (n : ℕ) → rank_rounds n [] ≡ []
  unfolding rank_next
  rank_rounds-nil zero = refl
  rank_rounds-nil (suc n) = rank_rounds-nil n

  pub rank_query-rounds :
      (n k : ℕ) (w : RankRows)
      → All (InRank k) w
      → limit < n + k
      → rank_query n limit edges w ≡ some (rank_rounds n w)
  unfolding rank_query
  rank_query-rounds n k [] h enough = ap some (sym (rank_rounds-nil n))
  rank_query-rounds zero k ((root, (m, d)) ∷ w) ((low, high), h) enough = absurd (omega arith)
  rank_query-rounds (suc n) k (t ∷ w) h enough =
      rw (rank_query-rounds n (suc k) _ (rank_next-InRank k (t ∷ w) h) (omega arith)) refl

  pub rank_first-InRank : (es : Edges) → 1 ≤ limit → All (InRank 1) (rank_first es)
  unfolding rank_first
  rank_first-InRank [] some_depth = tt
  rank_first-InRank ((a, b) ∷ es) some_depth =
      ((omega arith, some_depth), rank_first-InRank es some_depth)
