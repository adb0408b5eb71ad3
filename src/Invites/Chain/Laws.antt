-- ===== src/Invites/Chain/Laws.antt =====
-- The chain of invites, read down and up.
use loon_site.Prelude.{
  ℕ, zero, suc, ◌+◌, ◌<◌, ◌≡◌, ◌≢◌, ◌↔◌, refl, sym, ap, subst, ◌∙◌, Bool, true, some, [], ◌∷◌, map,
  keep, ◌==◌, nat_eq, beq_ne, arith, Bool-cases, inl, inr,
}
use loon_site.Prelude.Members.{In, In-keep, In-of_keep, In-map, In-of_map}
use loon_site.Invites.{Codes}
use loon_site.Invites.Chain.{
  Edges, Rows, InviteTree, rows_from, query, joined, invited, edges_of, upward, invite_tree,
  invite_upline, invite_tree_depth, recruit_counts, counted, count_distinct,
}
use loon_site.Invites.Chain.Rounds.{IsChain, query_chains}

cons-IsChain :
    (edges : Edges) (k a b c : ℕ)
    → In (a, b) edges
    → IsChain edges k b c
    → IsChain edges (suc k) a c
unfolding IsChain
cons-IsChain edges zero a b c edge last = (b, edge, last)
cons-IsChain edges (suc k) a b c edge (d, chain, last) =
    (d, cons-IsChain edges k a b d edge chain, last)

In-upward : (a b : ℕ) (edges : Edges) → In (a, b) edges → In (b, a) (upward edges)
unfolding upward
In-upward a b [] at = elim at [ ]
In-upward a b ((c, d) ∷ edges) (inl here) = inl (ap (λ t. (t.1, t.0)) here)
In-upward a b ((c, d) ∷ edges) (inr later) = inr (In-upward a b edges later)

upward-In : (a b : ℕ) (edges : Edges) → In (a, b) (upward edges) → In (b, a) edges
unfolding upward
upward-In a b [] at = elim at [ ]
upward-In a b ((c, d) ∷ edges) (inl here) = inl (ap (λ t. (t.1, t.0)) here)
upward-In a b ((c, d) ∷ edges) (inr later) = inr (upward-In a b edges later)

IsChain-upward : (edges : Edges) (k a b : ℕ) → IsChain edges k a b → IsChain (upward edges) k b a
unfolding IsChain
IsChain-upward edges zero a b edge = In-upward a b edges edge
IsChain-upward edges (suc k) a b (c, chain, edge) =
    cons-IsChain (upward edges) k b c a (In-upward c b edges edge)
      (IsChain-upward edges k a c chain)

upward-IsChain : (edges : Edges) (k a b : ℕ) → IsChain (upward edges) k a b → IsChain edges k b a
unfolding IsChain
upward-IsChain edges zero a b edge = upward-In a b edges edge
upward-IsChain edges (suc k) a b (c, chain, edge) =
    cons-IsChain edges k b c a (upward-In c b edges edge) (upward-IsChain edges k a c chain)

module _ (is_user : ℕ → Bool) (rows : Codes) where
  -- A row of the page: a member with an account, at the end of a chain of that length.
  abbrev pub IsBelow : Edges → ℕ → ℕ × (ℕ × ℕ) → Type 0
  IsBelow edges root (m, (d, n)) =
      (is_user m ≡ true)
      × (n ≡ invited m rows)
      × ((j : ℕ) × (d ≡ j + 1) × (j < invite_tree_depth) × IsChain edges j root m)

  page :
      (edges : Edges) (root : ℕ)
      → (tree : InviteTree) × (joined is_user rows
            (query invite_tree_depth invite_tree_depth edges (rows_from root 1 edges))
          ≡ some tree)
        × ((m d n : ℕ) → In (m, (d, n)) tree ↔ IsBelow edges root (m, (d, n)))
  unfolding joined
  page edges root =
      let (found, ends, means) = query_chains invite_tree_depth edges root (omega arith) in
      let named = keep (λ t. is_user t.0) found in
      let row : ℕ × ℕ → ℕ × (ℕ × ℕ) = (λ t. (t.0, (t.1, invited t.0 rows))) in
      (
        map row named,
        rw ends refl,
        λ m d n. (
          λ at.
              let ((m', d'), there, same) = In-of_map row (m, (d, n)) named at in
              let (inside, user) = In-of_keep (λ t. is_user t.0) (m', d') found there in
              let e : m' ≡ m = ap (λ t. t.0) same in
              let e' : d' ≡ d = ap (λ t. t.1.0) same in
              let counts : invited m' rows ≡ n = ap (λ t. t.1.1) same in
              (
                subst (λ k. is_user k ≡ true) e user,
                sym counts ∙ ap (λ k. invited k rows) e,
                (means m d).0 (rw (sym e, sym e') inside),
              ),
          λ below.
              let (user, counts, chain) = below in
              rw counts (
                In-map row (m, d) named
                  (In-keep (λ t. is_user t.0) (m, d) found ((means m d).1 chain) user)),
        ),
      )

  -- The page of a member ends on every table, also where the invites run in a circle: five rounds
  -- give the members with an account that a chain of one to five invites leads to, at the length
  -- of the chain.
  pub invite_tree_ends :
      (root : ℕ)
      → root ≢ 0
      → (tree : InviteTree) × (invite_tree invite_tree_depth is_user root rows ≡ some tree)
        × ((m d n : ℕ) → In (m, (d, n)) tree ↔ IsBelow (edges_of rows) root (m, (d, n)))
  unfolding invite_tree
  invite_tree_ends root member = rw (beq_ne root 0 member) (page (edges_of rows) root)

  -- The chain up is the chain down read the other way: of two members with accounts, one stands in
  -- the page of the other at a distance exactly when the other stands in the upline of the one, at
  -- the same distance.
  pub upline-tree :
      (a b d : ℕ)
      → a ≢ 0
      → b ≢ 0
      → is_user a ≡ true
      → is_user b ≡ true
      → (tree : InviteTree) × (up : InviteTree) × (invite_tree invite_tree_depth is_user a rows
          ≡ some tree)
        × (invite_upline invite_tree_depth is_user b rows ≡ some up)
        × (In (b, (d, invited b rows)) tree ↔ In (a, (d, invited a rows)) up)
  unfolding invite_tree invite_upline
  upline-tree a b d member member' user user' =
      let edges = edges_of rows in
      let (tree, down_ends, down) = page edges a in
      let (up, up_ends, above) = page (upward edges) b in
      (
        tree,
        up,
        rw (beq_ne a 0 member) down_ends,
        rw (beq_ne b 0 member') up_ends,
        (
          λ at.
              let (_, _, (j, depth, low, chain)) = (down b d (invited b rows)).0 at in
              (above a d (invited a rows)).1
                (user, refl, (j, depth, low, IsChain-upward edges j a b chain)),
          λ at.
              let (_, _, (j, depth, low, chain)) = (above a d (invited a rows)).0 at in
              (down b d (invited b rows)).1
                (user', refl, (j, depth, low, upward-IsChain edges j b a chain)),
        ),
      )

module _ (is_user : ℕ → Bool) (every : (m : ℕ) → is_user m ≡ true) where
  abbrev row_of : Codes → ℕ × ℕ → ℕ × (ℕ × ℕ)
  row_of rows t = (t.0, (t.1, invited t.0 rows))

  page_members :
      (rows : Codes) (found : Rows)
      → map (λ t. t.0) (map (row_of rows) (keep (λ t. is_user t.0) found)) ≡ map (λ t. t.0) found
  page_members rows [] = refl
  page_members rows (t ∷ found) = rw (every t.0) (ap (λ ms. t.0 ∷ ms) (page_members rows found))

  page_direct :
      (rows : Codes) (found : Rows)
      → map (λ t. t.0) (keep (λ t. t.1.0 == 1) (map (row_of rows) (keep (λ t. is_user t.0) found)))
        ≡ map (λ t. t.0) (keep (λ t. t.1 == 1) found)
  page_direct rows [] = refl
  page_direct rows (t ∷ found) = elim (Bool-cases (t.1 == 1)) [
    | inl direct ↦ rw (every t.0, direct) (ap (λ ms. t.0 ∷ ms) (page_direct rows found))
    | inr deeper ↦ rw (every t.0, deeper) (page_direct rows found)
  ]

  -- The counts on a profile are those of the page of invites: when every member has an account,
  -- five rounds give both, and the counts are of the distinct members of the page at depth 1 and
  -- of all of them.
  pub recruit_counts-tree :
      (root : ℕ) (rows : Codes)
      → root ≢ 0
      → (tree : InviteTree) × (invite_tree invite_tree_depth is_user root rows ≡ some tree)
        × (recruit_counts invite_tree_depth root rows
            ≡ some (
              count_distinct (map (λ t. t.0) (keep (λ t. t.1.0 == 1) tree)),
              count_distinct (map (λ t. t.0) tree),
            ))
  unfolding invite_tree recruit_counts counted joined
  recruit_counts-tree root rows member =
      let edges = edges_of rows in
      let (found, ends, _) = query_chains invite_tree_depth edges root (omega arith) in
      (
        map (row_of rows) (keep (λ t. is_user t.0) found),
        rw (beq_ne root 0 member, ends) refl,
        rw (beq_ne root 0 member, ends, page_direct rows found, page_members rows found) refl,
      )
