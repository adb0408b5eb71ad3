-- ===== src/Saved/Tests.antt =====
-- Tests of the model of carts, bookmarks and follows, and its theorems at concrete inputs.
use loon_site.Prelude.{
  ℕ, ◌⊎◌, List, Bool, length, not, any, ◌+◌, ◌≡◌, ◌≢◌, refl, true, false, ◌&&◌, some, [], ◌∷◌, ◌==◌,
  nat_eq, count_if, if◌then◌else◌, arith,
}
use loon_site.Prelude.Members.{In}
use loon_site.Saved.{
  toggle_bookmark, is_bookmarked, Pairs, is_of, is_pair, is_one_of, add_to_cart, list_friends,
  remove_from_cart, clear_cart, cart_ids, cart_count, in_cart, toggle_follow, follow_counts,
}
use loon_site.Saved.Laws.{toggle_bookmark_flips, add_to_cart_counts}
use loon_site.Saved.Friends.{IsMutual, friends_of, friends-IsMutual}

abbrev pairs : Pairs
pairs = (7, 8) ∷ (8, 7) ∷ (7, 9) ∷ []

seven_is_real : ◌≢◌ {A = ℕ} 7 0
seven_is_real same = omega arith

eight_is_real : ◌≢◌ {A = ℕ} 8 0
eight_is_real same = omega arith

nine_is_real : ◌≢◌ {A = ℕ} 9 0
nine_is_real same = omega arith

add_to_cart_counts_example :
    let after = add_to_cart true 7 (9 ∷ 5 ∷ 5 ∷ []) pairs in
    (count_if (is_of 7) after.0
      ≡ count_if (is_of 7) pairs + (if ◌==◌ {A = ℕ} 7 7 then after.1 else 0))
    × (count_if (is_pair 7 5) after.0
        ≡ count_if (is_pair 7 5) pairs
          + (if (◌==◌ {A = ℕ} 7 7 && is_one_of (9 ∷ 5 ∷ 5 ∷ []) 5) && not (any (is_pair 7 5) pairs)
              then 1
              else 0))
add_to_cart_counts_example = add_to_cart_counts 7 7 5 (9 ∷ 5 ∷ 5 ∷ []) pairs seven_is_real

abbrev as_found : List ℕ → List ℕ
as_found xs = xs

abbrev everybody : ℕ → Bool
everybody user = true

friends-IsMutual_example :
    (In 8 (friends_of as_found everybody pairs 7) → IsMutual as_found everybody pairs 7 8)
    × (IsMutual as_found everybody pairs 7 8
        → (length (friends_of as_found everybody pairs 7) ≡ 200)
          ⊎ In 8 (friends_of as_found everybody pairs 7))
    × (everybody 7 ≡ true
        → In 8 (friends_of as_found everybody pairs 7)
        → (length (friends_of as_found everybody pairs 8) ≡ 200)
          ⊎ In 7 (friends_of as_found everybody pairs 8))
friends-IsMutual_example =
    friends-IsMutual as_found everybody pairs 7 8 (λ x xs. (λ at. at, λ at. at)) seven_is_real
      eight_is_real

friends_of_seven : list_friends as_found everybody 7 pairs ≡ 8 ∷ []
unfolding list_friends
friends_of_seven = refl

two_new : (add_to_cart true 7 (9 ∷ 5 ∷ 5 ∷ 6 ∷ []) pairs).1 ≡ 2
unfolding add_to_cart
two_new = refl

removed : cart_ids true 7 (remove_from_cart true 7 (8 ∷ []) pairs) ≡ 9 ∷ []
unfolding cart_ids remove_from_cart
removed = refl

cleared : cart_count true 7 (clear_cart true 7 pairs) ≡ some 0
unfolding cart_count clear_cart
cleared = refl

ticked : in_cart true 7 (9 ∷ 4 ∷ []) 9 pairs ≡ true
unfolding in_cart
ticked = refl

not_oneself : (toggle_follow 7 7 pairs).1 ≡ false
unfolding toggle_follow
not_oneself = refl

counted_follows : follow_counts 7 pairs ≡ some (1, 2)
unfolding follow_counts
counted_follows = refl

toggle_bookmark_flips_example :
    let after = toggle_bookmark 7 9 pairs in
    (after.1 ≡ is_bookmarked 7 9 after.0)
    × (is_bookmarked 7 8 after.0 ≡ (
        if ◌==◌ {A = ℕ} 7 7 && ◌==◌ {A = ℕ} 9 8
        then not (is_bookmarked 7 8 pairs)
        else is_bookmarked 7 8 pairs))
toggle_bookmark_flips_example =
    toggle_bookmark_flips 7 9 7 8 pairs seven_is_real nine_is_real seven_is_real eight_is_real
