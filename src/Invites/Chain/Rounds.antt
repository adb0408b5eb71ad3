-- ===== src/Invites/Chain/Rounds.antt =====
-- The rounds of a recursive query: they end, and they find the chains up to the limit.
use loon_site.Prelude.{
  ℕ, zero, suc, ◌+◌, ◌≤◌, ◌<◌, ◌≡◌, ◌↔◌, refl, sym, ap, subst, true, some, [], ◌∷◌, ◌++◌, ltb, ◌==◌,
  nat_eq, nat_beq_iff, All, All-append, arith, Bool-cases, inl, inr,
}
use loon_site.Prelude.Members.{In, In-append_left, In-append_right, In-append_cases}
use loon_site.Invites.Chain.{Edges, Rows, rows_from, next_round, query}

-- Members that are `k + 1` edges apart.
unfoldable pub IsChain : Edges → ℕ → ℕ → ℕ → Type 0
IsChain edges zero a b = In (a, b) edges
IsChain edges (suc k) a c = (b : ℕ) × IsChain edges k a b × In (b, c) edges

module _ (limit : ℕ) (edges : Edges) where
  -- All rounds from one on, also those without rows.
  abbrev pub rounds : ℕ → Rows → Rows
  rounds zero w = []
  rounds (suc n) w = w ++ rounds n (next_round limit edges w)

  rounds-nil : (n : ℕ) → rounds n [] ≡ []
  unfolding next_round
  rounds-nil zero = refl
  rounds-nil (suc n) = rounds-nil n

  abbrev pub InRange : ℕ → ℕ × ℕ → Type 0
  InRange k (m, d) = (k ≤ d) × (d ≤ limit)

  pub rows_from-InRange :
      (k m d : ℕ) (es : Edges) → k ≤ d → d ≤ limit → All (InRange k) (rows_from m d es)
  unfolding rows_from
  rows_from-InRange k m d [] low high = tt
  rows_from-InRange k m d ((a, b) ∷ es) low high = elim (Bool-cases (a == m)) [
    | inl own ↦ rw own ((low, high), rows_from-InRange k m d es low high)
    | inr other ↦ rw other (rows_from-InRange k m d es low high)
  ]

  next_round-InRange :
      (k : ℕ) (w : Rows) → All (InRange k) w → All (InRange (suc k)) (next_round limit edges w)
  unfolding next_round
  next_round-InRange k [] h = tt
  next_round-InRange k ((m, d) ∷ w) ((low, high), h) = elim (Bool-cases (ltb d limit)) [
    | inl below ↦ rw below (
        All-append (InRange (suc k)) (rows_from m (d + 1) edges) _
          (rows_from-InRange (suc k) m (d + 1) edges (omega arith) (ground arith))
          (next_round-InRange k w h))
    | inr end ↦ rw end (next_round-InRange k w h)
  ]

  -- Enough rounds for the limit: the query ends with all of them.
  pub query-rounds :
      (n k : ℕ) (w : Rows)
      → All (InRange k) w
      → limit < n + k
      → query n limit edges w ≡ some (rounds n w)
  unfolding query
  query-rounds n k [] h enough = ap some (sym (rounds-nil n))
  query-rounds zero k ((m, d) ∷ w) ((low, high), h) enough = absurd (omega arith)
  query-rounds (suc n) k (t ∷ w) h enough =
      rw (query-rounds n (suc k) _ (next_round-InRange k (t ∷ w) h) (omega arith)) refl

  rows_from-In : (m d b : ℕ) (es : Edges) → In (m, b) es → In (b, d) (rows_from m d es)
  unfolding rows_from
  rows_from-In m d b [] at = elim at [ ]
  rows_from-In m d b ((a, c) ∷ es) (inl here) =
      let first : a ≡ m = ap (λ t. t.0) here in
      rw ((nat_beq_iff a m).1 first) (inl (ap (λ t. (t.1, d)) here))
  rows_from-In m d b ((a, c) ∷ es) (inr later) = elim (Bool-cases (a == m)) [
    | inl own ↦ rw own (inr (rows_from-In m d b es later))
    | inr other ↦ rw other (rows_from-In m d b es later)
  ]

  In-rows_from : (m d b e : ℕ) (es : Edges) → In (b, e) (rows_from m d es) → (e ≡ d) × In (m, b) es
  unfolding rows_from
  In-rows_from m d b e [] at = elim at [ ]
  In-rows_from m d b e ((a, c) ∷ es) at = elim (Bool-cases (a == m)) [
    | inr other ↦ let (same, there) = In-rows_from m d b e es (rw other at at) in (same, inr there)
    | inl own ↦ elim (rw own at at) [
      | inr later ↦ let (same, there) = In-rows_from m d b e es later in (same, inr there)
      | inl here ↦ (
        sym (ap (λ t. t.1) here),
        inl (rw (sym ((nat_beq_iff a m).0 own)) (ap (λ t. (a, t.0)) here)),
      )
    ]
  ]

  next_round-In :
      (m d b : ℕ) (w : Rows)
      → In (m, d) w
      → d < limit
      → In (m, b) edges
      → In (b, d + 1) (next_round limit edges w)
  unfolding next_round
  next_round-In m d b [] at below edge = elim at [ ]
  next_round-In m d b ((n, e) ∷ w) (inl here) below edge =
      let same : e ≡ d = ap (λ t. t.1) here in
      let first : n ≡ m = ap (λ t. t.0) here in
      let deeper : ltb e limit ≡ true = ground (arith, same) in
      rw (deeper, first, same)
        (In-append_left (b, d + 1) (rows_from m (d + 1) edges) _
          (rows_from-In m (d + 1) b edges edge))
  next_round-In m d b ((n, e) ∷ w) (inr later) below edge =
      let rest = next_round-In m d b w later below edge in
      elim (Bool-cases (ltb e limit)) [
        | inl deeper ↦ rw deeper (In-append_right (b, d + 1) (rows_from n (e + 1) edges) _ rest)
        | inr end ↦ rw end rest
      ]

  In-next_round :
      (b e : ℕ) (w : Rows)
      → In (b, e) (next_round limit edges w)
      → (m : ℕ) × (d : ℕ) × In (m, d) w × (d < limit) × (e ≡ d + 1) × In (m, b) edges
  unfolding next_round
  In-next_round b e [] at = elim at [ ]
  In-next_round b e ((n, d) ∷ w) at = elim (Bool-cases (ltb d limit)) [
    | inr end ↦
        let (m, d', there, low, same, edge) = In-next_round b e w (rw end at at) in
        (m, d', inr there, low, same, edge)
    | inl deeper ↦ elim (In-append_cases (b, e) (rows_from n (d + 1) edges) _ (rw deeper at at)) [
      | inr later ↦
          let (m, d', there, low, same, edge) = In-next_round b e w later in
          (m, d', inr there, low, same, edge)
      | inl here ↦
          let (same, edge) = In-rows_from n (d + 1) b e edges here in
          (n, d, inl refl, ground arith, same, edge)
    ]
  ]

  -- The rows of a round are the chains of its length.
  module _ (root : ℕ) where
    abbrev IsRound : ℕ → Rows → Type 0
    IsRound k w =
        (b d : ℕ)
        → (In (b, d) w → (d ≡ k + 1) × IsChain edges k root b)
          × (IsChain edges k root b → In (b, k + 1) w)

    first-IsRound : IsRound 0 (rows_from root 1 edges)
    unfolding IsChain
    first-IsRound b d = (In-rows_from root 1 b d edges, rows_from-In root 1 b edges)

    next-IsRound :
        (k : ℕ) (w : Rows)
        → k + 1 < limit
        → IsRound k w
        → IsRound (suc k) (next_round limit edges w)
    unfolding IsChain
    next-IsRound k w below h c d = (
      λ at.
          let (b, e, there, low, same, edge) = In-next_round c d w at in
          let (depth, chain) = (h b e).0 there in (omega (arith, same, depth), (b, chain, edge)),
      λ chain.
          let (b, before, edge) = chain in
          let at = next_round-In b (k + 1) c w ((h b 0).1 before) below edge in
          subst (λ n. In (c, n) (next_round limit edges w)) (omega arith) at,
    )

    In-rounds :
        (n k : ℕ) (w : Rows)
        → n + k ≡ limit
        → IsRound k w
        → (b d : ℕ) → In (b, d) (rounds n w)
        → (j : ℕ) × (d ≡ j + 1) × (j < limit) × IsChain edges j root b
    In-rounds zero k w total h b d at = elim at [ ]
    In-rounds (suc zero) k w total h b d at = elim (In-append_cases (b, d) w [] at) [
      | inl here ↦ let (depth, chain) = (h b d).0 here in (k, depth, omega arith, chain)
      | inr later ↦ elim later [ ]
    ]
    In-rounds (suc (suc n)) k w total h b d at =
        let w' = next_round limit edges w in
        elim (In-append_cases (b, d) w (rounds (suc n) w') at) [
          | inl here ↦ let (depth, chain) = (h b d).0 here in (k, depth, omega arith, chain)
          | inr later ↦
              In-rounds (suc n) (suc k) w' (omega arith) (next-IsRound k w (omega arith) h) b d
                later
        ]

    rounds-In :
        (n k : ℕ) (w : Rows)
        → n + k ≡ limit
        → IsRound k w
        → (b j : ℕ) → k ≤ j
        → j < limit
        → IsChain edges j root b
        → In (b, j + 1) (rounds n w)
    rounds-In zero k w total h b j low high chain = absurd (omega arith)
    rounds-In (suc n) k w total h b j low high chain = elim (Bool-cases (j == k)) [
      | inl same ↦
          let e = (nat_beq_iff j k).0 same in
          let here = (h b 0).1 (subst (λ i. IsChain edges i root b) e chain) in
          In-append_left (b, j + 1) w _ (subst (λ i. In (b, i + 1) w) (sym e) here)
      | inr later ↦
          let further : suc k ≤ j = ground arith in
          let deeper : k + 1 < limit = omega arith in
          In-append_right (b, j + 1) w _
            (rounds-In n (suc k) (next_round limit edges w) (omega arith)
              (next-IsRound k w deeper h) b j further high chain)
    ]

    -- The query from a member: it ends after the rounds of the limit, with the chains up to the
    -- limit.
    pub query_chains :
        1 ≤ limit
        → (found : Rows) × (query limit limit edges (rows_from root 1 edges) ≡ some found)
          × ((b d : ℕ)
              → In (b, d) found ↔ ((j : ℕ) × (d ≡ j + 1) × (j < limit) × IsChain edges j root b))
    query_chains positive =
        let w = rows_from root 1 edges in
        (
          rounds limit w,
          query-rounds limit 1 w (rows_from-InRange 1 root 1 edges (omega arith) positive)
              (omega arith),
          λ b d. (
            λ at. In-rounds limit 0 w (omega arith) first-IsRound b d at,
            λ found.
                let (j, depth, high, chain) = found in
                subst (λ e. In (b, e) (rounds limit w)) (sym depth)
                  (rounds-In limit 0 w (omega arith) first-IsRound b j (omega arith) high chain),
          ),
        )
