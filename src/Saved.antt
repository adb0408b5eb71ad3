-- ===== src/Saved.antt =====
-- internal/storage/cart.go, internal/storage/bookmarks.go and internal/storage/follows.go: what
-- members collect. release_cart, release_bookmark and user_follow are tables of pairs, in the
-- order of insertion, with a unique constraint on the pair. A call of one or two statements runs
-- in one piece; `connected` is the check of the connection. A member's or release's id that the
-- code tests with `<= 0` is 0. The times of the rows and the columns of `users` are left out;
-- the order of a list is a parameter.
pub mod Laws
pub mod Friends
mod Tests
use loon_site.Prelude.{
  ℕ, zero, suc, ◌+◌, ◌-◌, Bool, true, false, ◌&&◌, ◌||◌, not, Option, none, some, List, [], ◌∷◌,
  ◌++◌, ltb, ◌==◌, nat_eq, if◌then◌else◌, any, keep, count_if, map,
}

-- A member, and what the member has: a release, or another member.
abbrev pub Pairs : Type 0
Pairs = List (ℕ × ℕ)

abbrev pub is_pair : ℕ → ℕ → ℕ × ℕ → Bool
is_pair user item p = p.0 == user && (p.1 == item)

abbrev pub is_of : ℕ → ℕ × ℕ → Bool
is_of user p = p.0 == user

abbrev pub is_one_of : List ℕ → ℕ → Bool
is_one_of items item = any (λ i. i == item) items

-- `INSERT ... ON CONFLICT DO NOTHING` of one pair, with the number of rows it added.
unfoldable pub insert_pair : ℕ → ℕ → Pairs → Pairs × ℕ
insert_pair user item pairs =
    if any (is_pair user item) pairs then (pairs, 0) else (pairs ++ (user, item) ∷ [], 1)

-- The same of `unnest($2)`, one after the other, so that a duplicate among the items is one row.
unfoldable pub insert_items : ℕ → List ℕ → Pairs → Pairs × ℕ
unfolding insert_pair
insert_items user [] pairs = (pairs, 0)
insert_items user (item ∷ items) pairs =
    let first = insert_pair user item pairs in
    let rest = insert_items user items first.0 in (rest.0, first.1 + rest.1)

abbrev pub is_empty : List ℕ → Bool
is_empty [] = true
is_empty (i ∷ items) = false

-- The guard that every call on the cart begins with.
abbrev pub refuses : Bool → ℕ → List ℕ → Bool
refuses connected user items = user == 0 || (is_empty items || not connected)

-- `AddToCart`, and how many were new.
unfoldable pub add_to_cart : Bool → ℕ → List ℕ → Pairs → Pairs × ℕ
unfolding insert_items
add_to_cart connected user items cart =
    if refuses connected user items then (cart, 0) else insert_items user items cart

-- `BookmarkMany`, and how many were new.
unfoldable pub bookmark_many : Bool → ℕ → List ℕ → Pairs → Pairs × ℕ
unfolding insert_items
bookmark_many connected user items bookmarks =
    if refuses connected user items then (bookmarks, 0) else insert_items user items bookmarks

-- `RemoveFromCart`
unfoldable pub remove_from_cart : Bool → ℕ → List ℕ → Pairs → Pairs
remove_from_cart connected user items cart =
    if refuses connected user items
    then cart
    else keep (λ p. not (is_of user p && is_one_of items p.1)) cart

-- `ClearCart`
unfoldable pub clear_cart : Bool → ℕ → Pairs → Pairs
clear_cart connected user cart =
    if user == 0 || not connected then cart else keep (λ p. not (is_of user p)) cart

-- `CartIDs`
unfoldable pub cart_ids : Bool → ℕ → Pairs → List ℕ
cart_ids connected user cart =
    if user == 0 || not connected then [] else map (λ p. p.1) (keep (is_of user) cart)

-- `CartCount`: none for the answer that is not ok.
unfoldable pub cart_count : Bool → ℕ → Pairs → Option ℕ
cart_count connected user cart =
    if user == 0 || not connected then none else some (count_if (is_of user) cart)

-- `InCart`: whether the map that comes back has the release.
unfoldable pub in_cart : Bool → ℕ → List ℕ → ℕ → Pairs → Bool
in_cart connected user items item cart =
    if refuses connected user items
    then false
    else is_one_of items item && any (is_pair user item) cart

-- The two statements of a toggle: the row goes, or it comes when there was none.
unfoldable pub toggle_pair : ℕ → ℕ → Pairs → Pairs × Bool
unfolding insert_pair
toggle_pair user item pairs =
    if ltb 0 (count_if (is_pair user item) pairs)
    then (keep (λ p. not (is_pair user item p)) pairs, false)
    else ((insert_pair user item pairs).0, true)

-- `ToggleBookmark`, with the state after it.
unfoldable pub toggle_bookmark : ℕ → ℕ → Pairs → Pairs × Bool
unfolding toggle_pair
toggle_bookmark user release bookmarks =
    if user == 0 || release == 0 then (bookmarks, false) else toggle_pair user release bookmarks

-- `IsBookmarked`
unfoldable pub is_bookmarked : ℕ → ℕ → Pairs → Bool
is_bookmarked user release bookmarks =
    if user == 0 || release == 0 then false else ltb 0 (count_if (is_pair user release) bookmarks)

-- `BookmarkCount`
unfoldable pub bookmark_count : ℕ → Pairs → Option ℕ
bookmark_count user bookmarks = if user == 0 then none else some (count_if (is_of user) bookmarks)

-- `ToggleFollow`: nobody follows themselves.
unfoldable pub toggle_follow : ℕ → ℕ → Pairs → Pairs × Bool
unfolding toggle_pair
toggle_follow follower followee follows =
    if follower == 0 || (followee == 0 || follower == followee)
    then (follows, false)
    else toggle_pair follower followee follows

-- `IsFollowing`
unfoldable pub is_following : ℕ → ℕ → Pairs → Bool
is_following follower followee follows =
    if follower == 0 || followee == 0
    then false
    else ltb 0 (count_if (is_pair follower followee) follows)

-- `FollowCounts`: followers, and following.
unfoldable pub follow_counts : ℕ → Pairs → Option (ℕ × ℕ)
follow_counts user follows =
    if user == 0
    then none
    else some (count_if (λ p. p.1 == user) follows, count_if (is_of user) follows)

-- The self-join of `ListFriends`: those that the member follows and that follow back, one row for
-- each pair of rows.
unfoldable pub followed_back : ℕ → Pairs → Pairs → List ℕ
followed_back user [] follows = []
followed_back user ((follower, followee) ∷ rest) follows =
    let others = followed_back user rest follows in
    let back = map (λ p. followee) (keep (is_pair followee user) follows) in
    if follower == user then back ++ others else others

-- `FollowPageRows`
abbrev pub follow_page_rows : ℕ
follow_page_rows = 200

-- `LIMIT $2`
unfoldable pub page : ℕ → List ℕ → List ℕ
page n [] = []
page n (x ∷ xs) = if n == 0 then [] else x ∷ page (n - 1) xs

-- `by_time` is the order of the rows by the later of their two times, `has_account` the join with
-- `users`.
unfoldable pub list_friends : (List ℕ → List ℕ) → (ℕ → Bool) → ℕ → Pairs → List ℕ
unfolding followed_back page
list_friends by_time has_account user follows =
    if user == 0
    then []
    else page follow_page_rows (by_time (keep has_account (followed_back user follows follows)))
