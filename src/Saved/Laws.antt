-- ===== src/Saved/Laws.antt =====
-- What the calls on carts, bookmarks and follows come to.
use loon_site.Prelude.{
  ℕ, ◌+◌, ◌≡◌, ◌≢◌, refl, sym, ap, ◌∙◌, Bool, true, false, ◌&&◌, ◌||◌, not, List, [], ◌∷◌, ltb,
  ◌==◌, nat_eq, nat_beq_iff, beq_ne, beq_refl, if◌then◌else◌, any, keep, count_if, count_if-append,
  arith, Bool-cases, inl, inr,
}
use loon_site.Saved.{
  Pairs, is_pair, is_of, is_one_of, insert_pair, insert_items, add_to_cart, toggle_pair,
  toggle_bookmark, is_bookmarked, is_following,
}

-- Whether a pair is there.
abbrev pub holds : ℕ → ℕ → Pairs → Bool
holds user item pairs = ltb 0 (count_if (is_pair user item) pairs)

holds-keep :
    (user item : ℕ) (p : ℕ × ℕ → Bool) (pairs : Pairs)
    → holds user item (keep p pairs) ≡ (p (user, item) && holds user item pairs)
holds-keep user item p [] = ground arith
holds-keep user item p ((u, i) ∷ pairs) = elim (Bool-cases (is_pair user item (u, i))) [
  | inl same ↦
      let e : u ≡ user = (nat_beq_iff u user).0 (ground arith) in
      let e' : i ≡ item = (nat_beq_iff i item).0 (ground arith) in
      rw (e, e') (ground (arith, holds-keep user item p pairs, beq_refl user, beq_refl item))
  | inr other ↦ elim (Bool-cases (p (u, i))) [
    | inl kept ↦ rw (kept, other) (ground (arith, holds-keep user item p pairs))
    | inr left ↦ rw (left, other) (ground (arith, holds-keep user item p pairs))
  ]
]

any-holds : (user item : ℕ) (pairs : Pairs) → any (is_pair user item) pairs ≡ holds user item pairs
any-holds user item [] = refl
any-holds user item (p ∷ pairs) = ground (arith, any-holds user item pairs)

holds-insert :
    (user item who what : ℕ) (pairs : Pairs)
    → holds who what (insert_pair user item pairs).0
      ≡ (holds who what pairs || (user == who && (item == what)))
unfolding insert_pair
holds-insert user item who what pairs = elim (Bool-cases (any (is_pair user item) pairs)) [
  | inl there ↦ elim (Bool-cases (user == who && (item == what))) [
    | inl same ↦
        let e : user ≡ who = (nat_beq_iff user who).0 (ground arith) in
        let e' : item ≡ what = (nat_beq_iff item what).0 (ground arith) in
        let held : holds who what pairs ≡ true =
          (let w : holds user item pairs ≡ true = sym (any-holds user item pairs) ∙ there in
            rw (e, e') at w) in
        rw (there, same, held) refl
    | inr other ↦ rw (there, other) (ground arith)
  ]
  | inr new ↦ rw (new, count_if-append (is_pair who what) pairs ((user, item) ∷ [])) (ground arith)
]

insert_pair-of :
    (user item who : ℕ) (pairs : Pairs)
    → count_if (is_of who) (insert_pair user item pairs).0
      ≡ count_if (is_of who) pairs + (if user == who then (insert_pair user item pairs).1 else 0)
unfolding insert_pair
insert_pair-of user item who pairs = elim (Bool-cases (any (is_pair user item) pairs)) [
  | inl there ↦ rw there (ground arith)
  | inr new ↦ rw (new, count_if-append (is_of who) pairs ((user, item) ∷ [])) (omega arith)
]

insert_items-of :
    (user who : ℕ) (items : List ℕ) (pairs : Pairs)
    → count_if (is_of who) (insert_items user items pairs).0
      ≡ count_if (is_of who) pairs + (if user == who then (insert_items user items pairs).1 else 0)
unfolding insert_items
insert_items-of user who [] pairs = ground arith
insert_items-of user who (item ∷ items) pairs =
    let first = insert_pair-of user item who pairs in
    let rest = insert_items-of user who items (insert_pair user item pairs).0 in
    ground (arith, first, rest)

-- One row more for a pair that is named and not there yet.
abbrev pub new_row : Bool → Bool → ℕ
new_row named there = if named && not there then 1 else 0

insert_pair-row :
    (user item who what : ℕ) (pairs : Pairs)
    → count_if (is_pair who what) (insert_pair user item pairs).0
      ≡ count_if (is_pair who what) pairs
        + new_row (user == who && (item == what)) (holds who what pairs)
unfolding insert_pair
insert_pair-row user item who what pairs = elim (Bool-cases (any (is_pair user item) pairs)) [
  | inl there ↦ elim (Bool-cases (user == who && (item == what))) [
    | inl same ↦
        let e : user ≡ who = (nat_beq_iff user who).0 (ground arith) in
        let e' : item ≡ what = (nat_beq_iff item what).0 (ground arith) in
        let held : holds who what pairs ≡ true =
          (let w : holds user item pairs ≡ true = sym (any-holds user item pairs) ∙ there in
            rw (e, e') at w) in
        rw (there, same, held) (omega arith)
    | inr other ↦ rw (there, other) (ground arith)
  ]
  | inr new ↦ elim (Bool-cases (user == who && (item == what))) [
    | inl same ↦
        let e : user ≡ who = (nat_beq_iff user who).0 (ground arith) in
        let e' : item ≡ what = (nat_beq_iff item what).0 (ground arith) in
        let missing : holds who what pairs ≡ false =
          (let w : holds user item pairs ≡ false = sym (any-holds user item pairs) ∙ new in
            rw (e, e') at w) in
        rw (new, count_if-append (is_pair who what) pairs ((user, item) ∷ []), same, missing) refl
    | inr other ↦
        rw (new, count_if-append (is_pair who what) pairs ((user, item) ∷ []), other) (omega arith)
  ]
]

new_row-or :
    (first later there : Bool)
    → new_row first there + new_row later (there || first) ≡ new_row (first || later) there
new_row-or first later there = ground arith

insert_items-row :
    (user who what : ℕ) (items : List ℕ) (pairs : Pairs)
    → count_if (is_pair who what) (insert_items user items pairs).0
      ≡ count_if (is_pair who what) pairs
        + new_row (user == who && is_one_of items what) (holds who what pairs)
unfolding insert_items
insert_items-row user who what [] pairs = ground arith
insert_items-row user who what (item ∷ items) pairs =
    let one = insert_pair-row user item who what pairs in
    let rest = insert_items-row user who what items (insert_pair user item pairs).0 in
    let held = holds-insert user item who what pairs in
    let rest' : count_if (is_pair who what)
          (insert_items user items (insert_pair user item pairs).0).0
        ≡ count_if (is_pair who what) (insert_pair user item pairs).0
          + new_row (user == who && is_one_of items what)
              (holds who what pairs || (user == who && (item == what))) =
      rw held at rest in
    let join =
      new_row-or (user == who && (item == what)) (user == who && is_one_of items what)
        (holds who what pairs) in
    let split : (user == who && (item == what)) || (user == who && is_one_of items what)
        ≡ (user == who && is_one_of (item ∷ items) what) =
      ground arith in
    rest' ∙ omega (arith, one, join ∙ ap (λ b. new_row b (holds who what pairs)) split)

-- Adding to a cart: the badge of a member goes up by exactly the number that is reported as new,
-- and nobody else's moves. Each pair of a member and a release has one row more if it is named and
-- had none, and as many as before otherwise, so what was there already or is named twice is there
-- once, and what is not named is left alone.
pub add_to_cart_counts :
    (user who : ℕ) (what : ℕ) (items : List ℕ) (cart : Pairs)
    → user ≢ 0
    → let after = add_to_cart true user items cart in
      (count_if (is_of who) after.0
        ≡ count_if (is_of who) cart + (if user == who then after.1 else 0))
      × (count_if (is_pair who what) after.0
          ≡ count_if (is_pair who what) cart
            + (if (user == who && is_one_of items what) && not (any (is_pair who what) cart)
                then 1
                else 0))
unfolding add_to_cart
add_to_cart_counts user who what [] cart member =
    rw (beq_ne user 0 member) (ground arith, ground arith)
add_to_cart_counts user who what (item ∷ items) cart member =
    let held = any-holds who what cart in
    rw (beq_ne user 0 member) (
      insert_items-of user who (item ∷ items) cart,
      insert_items-row user who what (item ∷ items) cart
          ∙ ap
              (λ b.
                count_if (is_pair who what) cart
                + new_row (user == who && is_one_of (item ∷ items) what) b)
              (sym held),
    )

alike :
    (user item who what : ℕ) (pairs : Pairs)
    → (user == who && (item == what)) ≡ true
    → holds who what pairs ≡ holds user item pairs
alike user item who what pairs same =
    let e : user ≡ who = (nat_beq_iff user who).0 (ground arith) in
    let e' : item ≡ what = (nat_beq_iff item what).0 (ground arith) in rw (e, e') refl

-- A toggle turns one pair over and leaves the others.
toggle_pair-holds :
    (user item who what : ℕ) (pairs : Pairs)
    → ((toggle_pair user item pairs).1 ≡ not (holds user item pairs))
      × (holds who what (toggle_pair user item pairs).0 ≡ (
          if user == who && (item == what)
          then not (holds who what pairs)
          else holds who what pairs))
unfolding toggle_pair
toggle_pair-holds user item who what pairs = elim (Bool-cases (holds user item pairs)) [
  | inl there ↦ rw there (
    refl,
    holds-keep who what (λ p. not (is_pair user item p)) pairs
        ∙ (elim (Bool-cases (user == who && (item == what))) [
          | inl same ↦
              let held = alike user item who what pairs same ∙ there in ground (arith, held)
          | inr other ↦ ground arith
        ]),
  )
  | inr new ↦ rw new (
    refl,
    holds-insert user item who what pairs ∙ (elim (Bool-cases (user == who && (item == what))) [
      | inl same ↦ let held = alike user item who what pairs same ∙ new in rw (same, held) refl
      | inr other ↦ rw other (ground arith)
    ]),
  )
]

bookmarked-holds :
    (user release : ℕ) (bookmarks : Pairs)
    → user ≢ 0
    → release ≢ 0
    → is_bookmarked user release bookmarks ≡ holds user release bookmarks
unfolding is_bookmarked
bookmarked-holds user release bookmarks member real =
    rw (beq_ne user 0 member, beq_ne release 0 real) refl

pub following-holds :
    (user other : ℕ) (follows : Pairs)
    → user ≢ 0
    → other ≢ 0
    → is_following user other follows ≡ holds user other follows
unfolding is_following
following-holds user other follows member real = rw (beq_ne user 0 member, beq_ne other 0 real) refl

-- A toggle of a bookmark turns that bookmark over, reports the state after it, and leaves
-- the bookmarks of all others, and of the member on other releases, as they were.
pub toggle_bookmark_flips :
    (user release who what : ℕ) (bookmarks : Pairs)
    → user ≢ 0
    → release ≢ 0
    → who ≢ 0
    → what ≢ 0
    → let after = toggle_bookmark user release bookmarks in
      (after.1 ≡ is_bookmarked user release after.0)
      × (is_bookmarked who what after.0 ≡ (
          if user == who && (release == what)
          then not (is_bookmarked who what bookmarks)
          else is_bookmarked who what bookmarks))
unfolding toggle_bookmark
toggle_bookmark_flips user release who what bookmarks member real member' real' =
    let after = (toggle_pair user release bookmarks).0 in
    let (reported, own) = toggle_pair-holds user release user release bookmarks in
    let (_, flips) = toggle_pair-holds user release who what bookmarks in
    rw (beq_ne user 0 member, beq_ne release 0 real)
      (
        reported
            ∙ sym (
                bookmarked-holds user release after member real
                ∙ own
                ∙ rw (beq_refl user, beq_refl release) refl),
        rw
            (
              bookmarked-holds who what after member' real',
              bookmarked-holds who what bookmarks member' real',
            )
            flips,
      )
