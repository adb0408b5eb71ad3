-- ===== src/Saved/Friends.antt =====
-- Friends: follows that go both ways.
use loon_site.Prelude.{
  ℕ, ◌-◌, List, Bool, length, ◌⊎◌, ◌≡◌, ◌≢◌, ◌↔◌, refl, ap, sym, subst, ◌∙◌, true, [], ◌∷◌, ◌==◌,
  nat_eq, nat_beq_iff, beq_ne, beq_refl, keep, map, arith, Bool-cases, inl, inr,
}
use loon_site.Prelude.Members.{
  In, In-append_left, In-append_right, In-append_cases, In-map, In-of_map, In-keep, In-of_keep,
}
use loon_site.Saved.Laws.{holds, following-holds}
use loon_site.Saved.{
  Pairs, is_pair, is_following, followed_back, list_friends, page, follow_page_rows,
}

holds-In : (user item : ℕ) (pairs : Pairs) → holds user item pairs ≡ true → In (user, item) pairs
holds-In user item [] h = absurd (cc)
holds-In user item ((u, i) ∷ pairs) h = elim (Bool-cases (is_pair user item (u, i))) [
  | inl same ↦
      let e : u ≡ user = (nat_beq_iff u user).0 (ground arith) in
      let e' : i ≡ item = (nat_beq_iff i item).0 (ground arith) in inl (rw (e, e') refl)
  | inr other ↦ inr (holds-In user item pairs (let w = rw other at h in ground arith))
]

In-holds : (user item : ℕ) (pairs : Pairs) → In (user, item) pairs → holds user item pairs ≡ true
In-holds user item [] at = elim at [ ]
In-holds user item ((u, i) ∷ pairs) (inl here) =
    let e : u ≡ user = ap (λ p. p.0) here in
    let e' : i ≡ item = ap (λ p. p.1) here in
    rw (e, e', beq_refl user, beq_refl item) (ground arith)
In-holds user item ((u, i) ∷ pairs) (inr later) = ground (arith, In-holds user item pairs later)

pair_of : (a b : ℕ) (p : ℕ × ℕ) → is_pair a b p ≡ true → p ≡ (a, b)
pair_of a b (u, i) match =
    let e : u ≡ a = (nat_beq_iff u a).0 (ground arith) in
    let e' : i ≡ b = (nat_beq_iff i b).0 (ground arith) in rw (e, e') refl

followed_back-In :
    (user friend : ℕ) (rest follows : Pairs)
    → In friend (followed_back user rest follows)
    → In (user, friend) rest × In (friend, user) follows
unfolding followed_back
followed_back-In user friend [] follows at = elim at [ ]
followed_back-In user friend ((follower, followee) ∷ rest) follows at =
    elim (Bool-cases (follower == user)) [
      | inr other ↦
          let (there, back) = followed_back-In user friend rest follows (rw other at at) in
          (inr there, back)
      | inl own ↦
          let back = map (λ p. followee) (keep (is_pair followee user) follows) in
          elim (In-append_cases friend back (followed_back user rest follows) (rw own at at)) [
            | inr later ↦
                let (there, back) = followed_back-In user friend rest follows later in
                (inr there, back)
            | inl first ↦
                let (p, kept, same) =
                  In-of_map (λ (p : ℕ × ℕ). followee) friend (keep (is_pair followee user) follows)
                    first in
                let (there, match) = In-of_keep (is_pair followee user) p follows kept in
                (
                  inl (rw ((nat_beq_iff follower user).0 own, same) refl),
                  subst (λ q. In q follows)
                      (pair_of followee user p match ∙ ap (λ m. (m, user)) same) there,
                )
          ]
    ]

In-followed_back :
    (user friend : ℕ) (rest follows : Pairs)
    → In (user, friend) rest
    → In (friend, user) follows
    → In friend (followed_back user rest follows)
unfolding followed_back
In-followed_back user friend [] follows at back = elim at [ ]
In-followed_back user friend ((follower, followee) ∷ rest) follows (inl here) back =
    let e : follower ≡ user = ap (λ p. p.0) here in
    let e' : followee ≡ friend = ap (λ p. p.1) here in
    rw ((nat_beq_iff follower user).1 e) (
      In-append_left friend _ (followed_back user rest follows) (
        subst (λ m. In friend (map (λ (p : ℕ × ℕ). m) (keep (is_pair m user) follows))) (sym e')
          (In-map (λ (p : ℕ × ℕ). friend) (friend, user) (keep (is_pair friend user) follows)
            (In-keep (is_pair friend user) (friend, user) follows back
              (rw (beq_refl friend, beq_refl user) refl)))))
In-followed_back user friend ((follower, followee) ∷ rest) follows (inr later) back =
    let more = In-followed_back user friend rest follows later back in
    elim (Bool-cases (follower == user)) [
      | inl own ↦ rw own (In-append_right friend _ (followed_back user rest follows) more)
      | inr other ↦ rw other more
    ]

In-page : (n x : ℕ) (xs : List ℕ) → In x (page n xs) → In x xs
unfolding page
In-page n x [] at = at
In-page n x (y ∷ xs) at = elim (Bool-cases (n == 0)) [
  | inl full ↦ elim (rw full at at) [ ]
  | inr room ↦ elim (rw room at at) [
    | inl here ↦ inl here
    | inr later ↦ inr (In-page (n - 1) x xs later)
  ]
]

page-In : (n x : ℕ) (xs : List ℕ) → In x xs → (length (page n xs) ≡ n) ⊎ In x (page n xs)
unfolding page
page-In n x [] at = elim at [ ]
page-In n x (y ∷ xs) at = elim (Bool-cases (n == 0)) [
  | inl full ↦ rw full (inl (ground arith))
  | inr room ↦ rw room (elim at [
    | inl here ↦ inr (inl here)
    | inr later ↦ elim (page-In (n - 1) x xs later) [
      | inl all ↦ inl (ground (arith, all))
      | inr there ↦ inr (inr there)
    ]
  ])
]

-- The order of a list adds and drops no row.
abbrev pub IsReordering : (List ℕ → List ℕ) → Type 0
IsReordering by_time = (x : ℕ) (xs : List ℕ) → In x (by_time xs) ↔ In x xs

module _ (by_time : List ℕ → List ℕ) (has_account : ℕ → Bool) (follows : Pairs) where
  -- The member follows the other, the other follows back, and the other has an account.
  abbrev pub IsMutual : ℕ → ℕ → Type 0
  IsMutual user friend =
      (is_following user friend follows ≡ true)
      × (is_following friend user follows ≡ true)
      × (has_account friend ≡ true)

  abbrev pub friends_of : ℕ → List ℕ
  friends_of user = list_friends by_time has_account user follows

  module _ (reorders : IsReordering by_time) (user friend : ℕ) (member : user ≢ 0)
      (real : friend ≢ 0) where
    In-IsMutual : In friend (friends_of user) → IsMutual user friend
    unfolding list_friends
    In-IsMutual at =
        let both = followed_back user follows follows in
        let listed : In friend (page follow_page_rows (by_time (keep has_account both))) =
          rw (beq_ne user 0 member) at at in
        let kept =
          (reorders friend (keep has_account both)).0
            (In-page follow_page_rows friend (by_time (keep has_account both)) listed) in
        let (there, account) = In-of_keep has_account friend both kept in
        let (out, home) = followed_back-In user friend follows follows there in
        (
          following-holds user friend follows member real ∙ In-holds user friend follows out,
          following-holds friend user follows real member ∙ In-holds friend user follows home,
          account,
        )

    mutual-friends :
        IsMutual user friend
        → (length (friends_of user) ≡ follow_page_rows) ⊎ In friend (friends_of user)
    unfolding list_friends
    mutual-friends (out, home, account) =
        let both = followed_back user follows follows in
        let there =
          In-followed_back user friend follows follows
            (holds-In user friend follows
              (sym (following-holds user friend follows member real) ∙ out))
            (holds-In friend user follows
              (sym (following-holds friend user follows real member) ∙ home)) in
        let kept = In-keep has_account friend both there account in
        rw (beq_ne user 0 member) (
          page-In follow_page_rows friend (by_time (keep has_account both))
            ((reorders friend (keep has_account both)).1 kept))

  -- Friends are mutual: everybody on a member's list of friends is followed by the member, follows
  -- the member and has an account, and everybody of whom that holds is on the list unless the list
  -- has its 200 rows. So a member with an account is on the list of each of the member's friends,
  -- unless that one is full. The order of the list is any that adds and drops no row.
  pub friends-IsMutual :
      (user friend : ℕ)
      → IsReordering by_time
      → user ≢ 0
      → friend ≢ 0
      → (In friend (friends_of user) → IsMutual user friend)
        × (IsMutual user friend → (length (friends_of user) ≡ 200) ⊎ In friend (friends_of user))
        × (has_account user ≡ true
            → In friend (friends_of user)
            → (length (friends_of friend) ≡ 200) ⊎ In user (friends_of friend))
  friends-IsMutual user friend reorders member real = (
    In-IsMutual reorders user friend member real,
    mutual-friends reorders user friend member real,
    λ account at.
        let (out, home, _) = In-IsMutual reorders user friend member real at in
        mutual-friends reorders friend user real member (home, out, account),
  )
