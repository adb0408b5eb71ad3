-- ===== src/Undo/Tests.antt =====
-- Tests of the undo model, and its theorems at concrete inputs.
use loon_site.Prelude.{
  ℕ, ◌≡◌, ◌≢◌, refl, String, true, false, Option, some, List, [], ◌∷◌, arith, lookup, string_eq,
  eq_iff,
}
use loon_site.Prelude.Int.{pos, positive?}
use loon_site.Prelude.Bytes.{codes}
use loon_site.Undo.{
  UndoAction, UndoTable, Link, Undone, gone, refused, undone, record_undo, Reversal, perform_undo,
  undo_window, undone_url,
}
use loon_site.Undo.Steps.{record_op, purge_op, after_undo_ops}
use loon_site.Undo.Once.{undo_once}
use loon_site.Undo.Offer.{IsOpen, undone_sound, perform-record}

-- The database is one member's text; undoing puts the old text back, unless it is too long.
abbrev put_back : Reversal ℕ ℕ
put_back user old text = (old, true)

abbrev fail : Reversal ℕ ℕ
fail user old text = (text, false)

abbrev handlers : List (String × Reversal ℕ ℕ)
handlers = ("bio.replaced", put_back) ∷ ("avatar.cleared", fail) ∷ []

abbrev link : Link
link = record { connected = true; runs = true; hands_back = true }

abbrev offered : UndoTable ℕ
offered =
    (
      "abc",
      record { user_id = 7; kind = "bio.replaced"; payload = 3; expires_at = 1000; used = false },
    )
    ∷ (
      "def",
      record { user_id = 7; kind = "avatar.cleared"; payload = 4; expires_at = 1000; used = false },
    )
    ∷ []

drawn_elsewhere : ◌≢◌ {A = Option String} (some "new") (some "abc")
drawn_elsewhere same = let e : "new" ≡ "abc" = cc in let test = (eq_iff "new" "abc").1 e in cc

not_empty : ◌≢◌ {A = String} "xyz" ""
not_empty same = let test = (eq_iff "xyz" "").1 same in cc

undo_once_example :
    let between =
      after_undo_ops handlers
        (record_op link 200 (pos 8) "bio.replaced" (some 1) (some "new") ∷ purge_op link 300 ∷ [])
        (perform_undo link handlers 150 (pos 7) "abc" (offered, 9)).0 in
    perform_undo link handlers 400 (pos 7) "abc" between ≡ (between, gone)
unfolding lookup perform_undo loon_site.Undo.claim
undo_once_example =
    undo_once handlers link link 150 400 (pos 7) (pos 7) "abc" "bio.replaced"
      (record_op link 200 (pos 8) "bio.replaced" (some 1) (some "new") ∷ purge_op link 300 ∷ [])
      offered 9 (refl, (refl, tt)) (drawn_elsewhere, (tt, tt)) refl

undone_sound_example :
    (u : ℕ) × (a : UndoAction ℕ) × (handler : Reversal ℕ ℕ) × (positive? (pos 7) ≡ some u)
    × IsOpen handlers 150 u "abc" offered a
    × (a.kind ≡ "bio.replaced")
    × (lookup "bio.replaced" handlers ≡ some handler)
    × (handler u a.payload 9
        ≡ ((perform_undo link handlers 150 (pos 7) "abc" (offered, 9)).0.1, true))
unfolding perform_undo loon_site.Undo.claim lookup
undone_sound_example = undone_sound handlers link 150 (pos 7) "abc" "bio.replaced" offered 9 refl

perform-record_example :
    let kept = record_undo link 100 (pos 7) "bio.replaced" (some 3) (some "xyz") offered in
    let after = perform_undo link handlers 900 (pos 7) "xyz" (kept.0, 9) in
    (kept.1 ≡ "xyz") × (after.1 ≡ undone "bio.replaced") × (after.0.1 ≡ 3)
unfolding lookup
perform-record_example =
    perform-record handlers link 100 900 7 "bio.replaced" 3 "xyz" put_back offered 9 3 refl refl
      not_empty refl (omega arith) (omega arith) refl refl

-- The separator follows the path's own query.
asked : undone_url (codes "/u/7?tab=bio") (codes "undone=1") ≡ codes "/u/7?tab=bio&undone=1"
unfolding undone_url
asked = refl

-- A path that starts with two slashes is another site's.
elsewhere : undone_url (codes "//evil") (codes "undone=1") ≡ codes "/?undone=1"
unfolding undone_url
elsewhere = refl
