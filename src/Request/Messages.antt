-- ===== src/Request/Messages.antt =====
-- What a form is told by its checks.
use loon_site.Prelude.{
  ℕ, ◌≡◌, refl, Bool, true, false, ◌&&◌, ◌||◌, not, none, some, List, [], ◌∷◌, ◌==◌, lookup, insert,
  lookup-insert, arith, Bool-cases, Option-cases, inl, inr,
}
use loon_site.Prelude.Bytes.{Bytes, bytes_eq, bytes_beq_iff}
use loon_site.Request.Checks.{
  Errors, add_error, any_error, or_add, required, max_runes, min_runes, email, one_of, matches,
}

-- A check of `request.go` on one field of a form.
pub data Check : Type 0 where
  required_check : Bytes → Bytes → Bytes → Check
  max_check : Bytes → Bytes → Bytes → ℕ → Check
  min_check : Bytes → Bytes → Bytes → ℕ → Check
  email_check : (Bytes → Bool) → Bytes → Bytes → Check
  option_check : Bytes → Bytes → List Bytes → Check
  match_check : Bytes → Bytes → Bytes → Bytes → Check

unfoldable pub run_check : Check → Errors → Errors × Bool
run_check (required_check field value label) e = required field value label e
run_check (max_check field value label most) e = max_runes field value label most e
run_check (min_check field value label least) e = min_runes field value label least e
run_check (email_check parses field value) e = email parses field value e
run_check (option_check field value allowed) e = one_of field value allowed e
run_check (match_check field a b msg) e = matches field a b msg e

-- All checks of a form, in order, and whether all passed.
unfoldable pub run_checks : List Check → Errors → Errors × Bool
run_checks [] e = (e, true)
run_checks (c ∷ checks) e =
    let here = run_check c e in let rest = run_checks checks here.0 in (rest.0, here.1 && rest.1)

add_error-any : (field msg : Bytes) (e : Errors) → any_error (add_error field msg e) ≡ true
unfolding add_error any_error lookup insert
add_error-any field msg [] = refl
add_error-any field msg (m ∷ e) = elim (Option-cases (lookup field (m ∷ e))) [
  | inr (seen, there) ↦ rw (there, add_error) (ground arith)
  | inl missing ↦ elim (Bool-cases (m.0 == field)) [
    | inl same ↦ rw (missing, add_error, same) (ground arith)
    | inr other ↦ rw (missing, add_error, other) (ground arith)
  ]
]

add_error-lookup :
    (field msg at : Bytes) (e : Errors) (first : Bytes)
    → lookup at e ≡ some first
    → lookup at (add_error field msg e) ≡ some first
unfolding add_error
add_error-lookup field msg at e first seen = elim (Option-cases (lookup field e)) [
  | inr (m, there) ↦ rw there seen
  | inl missing ↦ elim (Bool-cases (field == at)) [
    | inl same ↦ absurd (
        let e' : field ≡ at = (bytes_beq_iff field at).0 same in
        let gone : lookup at e ≡ none = rw e' at missing in cc)
    | inr other ↦ rw (missing, lookup-insert field at msg e, other) seen
  ]
]

-- Every check is one call of `Add` when it fails, and nothing when it passes.
check_adds :
    (c : Check) (e : Errors)
    → (passes : Bool) × (field : Bytes) × (msg : Bytes) × (run_check c e
        ≡ or_add passes field msg e)
unfolding run_check required max_runes min_runes email one_of matches
check_adds (required_check field value label) e = (_, field, _, refl)
check_adds (max_check field value label most) e = (_, field, _, refl)
check_adds (min_check field value label least) e = (_, field, _, refl)
check_adds (email_check parses field value) e = (_, field, _, refl)
check_adds (option_check field value allowed) e = (_, field, _, refl)
check_adds (match_check field a b msg) e = (_, field, _, refl)

or_add-any :
    (passes : Bool) (field msg : Bytes) (e : Errors)
    → any_error (or_add passes field msg e).0 ≡ (any_error e || not (or_add passes field msg e).1)
or_add-any true field msg e = ground arith
or_add-any false field msg e = let any_more = add_error-any field msg e in ground (arith, any_more)

or_add-lookup :
    (passes : Bool) (field msg at : Bytes) (e : Errors) (first : Bytes)
    → lookup at e ≡ some first
    → lookup at (or_add passes field msg e).0 ≡ some first
or_add-lookup true field msg at e first seen = seen
or_add-lookup false field msg at e first seen = add_error-lookup field msg at e first seen

pub checks-any :
    (checks : List Check) (e : Errors)
    → any_error (run_checks checks e).0 ≡ (any_error e || not (run_checks checks e).1)
unfolding run_checks
checks-any [] e = ground arith
checks-any (c ∷ checks) e =
    let (passes, field, msg, adds) = check_adds c e in
    let here = or_add-any passes field msg e in
    let rest = checks-any checks (or_add passes field msg e).0 in
    rw adds (ground (arith, here, rest))

-- The first message of a field stays: what later checks say of the same field is not shown, and
-- what they say of others takes no message away.
pub first_message_stays :
    (checks : List Check) (field first : Bytes) (e : Errors)
    → lookup field e ≡ some first
    → lookup field (run_checks checks e).0 ≡ some first
unfolding run_checks
first_message_stays [] field first e seen = seen
first_message_stays (c ∷ checks) field first e seen =
    let (passes, at, msg, adds) = check_adds c e in
    rw adds (
      first_message_stays checks field first (or_add passes at msg e).0
        (or_add-lookup passes at msg field e first seen))
