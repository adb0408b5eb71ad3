-- ===== src/Invites/Chain/Ranking.antt =====
-- The ranking of the recruiters counts what each one's profile counts.
use loon_site.Prelude.{
  ℕ, ◌≤◌, ◌<◌, ◌≡◌, ◌≢◌, ◌⊎◌, length, ◌-◌, refl, sym, ap, subst, ◌∙◌, Bool, false, some, List, [],
  ◌∷◌, any, ◌==◌, nat_eq, beq_ne, arith, Bool-cases, inl, inr,
}
use loon_site.Prelude.Members.{In}
use loon_site.Invites.{Codes}
use loon_site.Invites.Chain.{
  RankRows, InviteTree, rows_from, edges_of, invite_tree_depth, recruit_counts, counted,
  count_distinct, count_pair, rank_first, rows_of_root, grouped, ranked, top_recruiters, outranks,
  put_ranked, ordered, limited, ranking_limit,
}
use loon_site.Invites.Chain.Rounds.{rounds, rows_from-InRange, query-rounds}
use loon_site.Invites.Chain.Recruiters.{
  rank_rounds, rank_first-rows, rank_rounds-rows, rank_query-rounds, rank_first-InRank,
}
use mathlib.Core.Option.{some-injective}

In-grouped :
    (users : List ℕ) (found : RankRows) (u : ℕ) (c : ℕ × ℕ)
    → In (u, c) (grouped users found)
    → c ≡ count_pair (rows_of_root u found)
unfolding grouped
In-grouped [] found u c at = elim at [ ]
In-grouped (user ∷ users) found u c at = elim (Bool-cases (any (λ t. t.0 == user) found)) [
  | inr none_there ↦ In-grouped users found u c (rw none_there at at)
  | inl there ↦ elim (rw there at at) [
    | inr later ↦ In-grouped users found u c later
    | inl here ↦
        let same : user ≡ u = ap (λ t. t.0) here in
        sym (ap (λ t. t.1) here) ∙ ap (λ n. count_pair (rows_of_root n found)) same
  ]
]

module _ (name_before : ℕ → ℕ → Bool) where
  In-put_ranked :
      (x t : ℕ × (ℕ × ℕ)) (rows : InviteTree)
      → In x (put_ranked name_before t rows)
      → (t ≡ x) ⊎ In x rows
  unfolding put_ranked
  In-put_ranked x t [] at = at
  In-put_ranked x t (u ∷ rows) at = elim (Bool-cases (outranks name_before u t)) [
    | inr first ↦ rw first at at
    | inl second ↦ elim (rw second at at) [
      | inl here ↦ inr (inl here)
      | inr later ↦ elim (In-put_ranked x t rows later) [
        | inl new ↦ inl new
        | inr old ↦ inr (inr old)
      ]
    ]
  ]

  put_ranked-In :
      (x t : ℕ × (ℕ × ℕ)) (rows : InviteTree)
      → (t ≡ x) ⊎ In x rows
      → In x (put_ranked name_before t rows)
  unfolding put_ranked
  put_ranked-In x t [] at = at
  put_ranked-In x t (u ∷ rows) at = elim (Bool-cases (outranks name_before u t)) [
    | inr first ↦ rw first at
    | inl second ↦ rw second (elim at [
      | inl new ↦ inr (put_ranked-In x t rows (inl new))
      | inr (inl here) ↦ inl here
      | inr (inr later) ↦ inr (put_ranked-In x t rows (inr later))
    ])
  ]

  ordered-In : (x : ℕ × (ℕ × ℕ)) (rows : InviteTree) → In x rows → In x (ordered name_before rows)
  unfolding ordered
  ordered-In x [] at = at
  ordered-In x (t ∷ rows) (inl here) = put_ranked-In x t (ordered name_before rows) (inl here)
  ordered-In x (t ∷ rows) (inr later) =
      put_ranked-In x t (ordered name_before rows) (inr (ordered-In x rows later))

  In-ordered : (x : ℕ × (ℕ × ℕ)) (rows : InviteTree) → In x (ordered name_before rows) → In x rows
  unfolding ordered
  In-ordered x [] at = at
  In-ordered x (t ∷ rows) at = elim (In-put_ranked x t (ordered name_before rows) at) [
    | inl here ↦ inl here
    | inr later ↦ inr (In-ordered x rows later)
  ]

In-limited : (n : ℕ) (x : ℕ × (ℕ × ℕ)) (rows : InviteTree) → In x (limited n rows) → In x rows
unfolding limited
In-limited n x [] at = at
In-limited n x (t ∷ rows) at = elim (Bool-cases (n == 0)) [
  | inl full ↦ elim (rw full at at) [ ]
  | inr room ↦ elim (rw room at at) [
    | inl here ↦ inl here
    | inr later ↦ inr (In-limited (n - 1) x rows later)
  ]
]

limited-In :
    (n : ℕ) (x : ℕ × (ℕ × ℕ)) (rows : InviteTree)
    → In x rows
    → (length (limited n rows) ≡ n) ⊎ In x (limited n rows)
unfolding limited
limited-In n x [] at = elim at [ ]
limited-In n x (t ∷ rows) at = elim (Bool-cases (n == 0)) [
  | inl full ↦ rw full (inl (ground arith))
  | inr room ↦ rw room (elim at [
    | inl here ↦ inr (inl here)
    | inr later ↦ elim (limited-In (n - 1) x rows later) [
      | inl all ↦ inl (ground (arith, all))
      | inr there ↦ inr (inr there)
    ]
  ])
]

any-count :
    (user : ℕ) (found : RankRows)
    → any (λ t. t.0 == user) found ≡ false
    → (count_pair (rows_of_root user found)).1 ≡ 0
unfolding count_distinct
any-count user [] none_there = refl
any-count user (t ∷ found) none_there = elim (Bool-cases (t.0 == user)) [
  | inl own ↦ absurd (ground (arith, own))
  | inr other ↦ rw other (any-count user found (rw other at none_there))
]

grouped-In :
    (users : List ℕ) (found : RankRows) (user : ℕ)
    → In user users
    → 0 < (count_pair (rows_of_root user found)).1
    → In (user, count_pair (rows_of_root user found)) (grouped users found)
unfolding grouped
grouped-In [] found user at some_below = elim at [ ]
grouped-In (u ∷ users) found user (inl here) some_below =
    elim (Bool-cases (any (λ t. t.0 == user) found)) [
      | inl there ↦ rw (here, there) (inl refl)
      | inr none_there ↦
          let no_count = any-count user found none_there in
          absurd (omega (arith, no_count, some_below))
    ]
grouped-In (u ∷ users) found user (inr later) some_below =
    let rest = grouped-In users found user later some_below in
    elim (Bool-cases (any (λ t. t.0 == u) found)) [
      | inl there ↦ rw there (inr rest)
      | inr none_there ↦ rw none_there rest
    ]

limited-length : (n : ℕ) (rows : InviteTree) → length (limited n rows) ≤ n
unfolding limited
limited-length n [] = omega arith
limited-length n (t ∷ rows) = elim (Bool-cases (n == 0)) [
  | inl full ↦ rw full (omega arith)
  | inr room ↦ let rest = limited-length (n - 1) rows in rw room (ground (arith, rest))
]

ranking_limit-le : (limit : ℕ) → ranking_limit limit ≤ 200
unfolding ranking_limit
ranking_limit-le limit = ground arith

-- Of whatever members, and with whatever limit, the ranking of the recruiters ends within as many
-- rounds as the depth of the tree and has at most 200 rows. It shows each member with the two
-- counts of that member's own profile, and a member with somebody below is on it unless it has as
-- many rows as the limit allows. The last two are for ids other than 0.
pub top_recruiters-counts :
    (name_before : ℕ → ℕ → Bool) (users : List ℕ) (limit : ℕ) (rows : Codes)
    → (ranking : InviteTree) × (top_recruiters invite_tree_depth name_before users limit rows
        ≡ some ranking)
      × (length ranking ≤ 200)
      × ((user : ℕ) (counts : ℕ × ℕ)
          → user ≢ 0
          → (In (user, counts) ranking → recruit_counts invite_tree_depth user rows ≡ some counts)
            × (In user users
                → 0 < counts.1
                → recruit_counts invite_tree_depth user rows ≡ some counts
                → (length ranking ≡ ranking_limit limit) ⊎ In (user, counts) ranking))
unfolding top_recruiters recruit_counts counted ranked
top_recruiters-counts name_before users limit rows =
    let depth = invite_tree_depth in
    let edges = edges_of rows in
    let found = rank_rounds depth edges depth (rank_first edges) in
    let listed = ordered name_before (grouped users found) in
    let ends =
      rank_query-rounds depth edges depth 1 (rank_first edges)
        (rank_first-InRank depth edges edges (omega arith)) (omega arith) in
    (
      limited (ranking_limit limit) listed,
      rw ends refl,
      (let few = limited-length (ranking_limit limit) listed in
          let most = ranking_limit-le limit in omega (arith, few, most)),
      λ user counts member.
          let own : rows_of_root user found ≡ rounds depth edges depth (rows_from user 1 edges) =
            rank_rounds-rows depth edges depth user (rank_first edges)
            ∙ ap (rounds depth edges depth) (rank_first-rows user edges) in
          let profile =
            query-rounds depth edges depth 1 (rows_from user 1 edges)
              (rows_from-InRange depth edges 1 user 1 edges (omega arith) (omega arith))
              (omega arith) in
          let counts_of : recruit_counts depth user rows
              ≡ some (count_pair (rows_of_root user found)) =
            rw (beq_ne user 0 member, profile, own) refl in
          (
            λ at.
                let entry = In-grouped users found user counts (
                  In-ordered name_before (user, counts) (grouped users found)
                    (In-limited (ranking_limit limit) (user, counts) listed at)) in
                counts_of ∙ ap some (sym entry),
            λ account some_below shown.
                let same : count_pair (rows_of_root user found) ≡ counts =
                  some-injective _ _ (sym counts_of ∙ shown) in
                let here =
                  grouped-In users found user account
                    (subst (λ c. 0 < c.1) (sym same) some_below) in
                limited-In (ranking_limit limit) (user, counts) listed
                  (ordered-In name_before (user, counts) (grouped users found)
                    (subst (λ c. In (user, c) (grouped users found)) same here)),
          ),
    )
