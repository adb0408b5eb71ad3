-- ===== src/Request/Failures.antt =====
-- When the checks of a form fail, and at which fields.
use loon_site.Prelude.{
  Option, ◌≡◌, ◌≢◌, ◌⊎◌, ◌↔◌, ◌<◌, ltb, if◌then◌else◌, length, any, refl, sym, ap, ◌∙◌, Bool, true,
  false, ◌&&◌, ◌||◌, not, none, some, List, [], ◌∷◌, ◌==◌, lookup, insert, lookup-insert, arith,
  Option-cases, inl, inr,
}
use loon_site.Prelude.Bytes.{Bytes, bytes_eq, bytes_beq_iff}
use loon_site.Prelude.Members.{In, any_equal-In}
use loon_site.Request.Checks.{
  Errors, add_error, any_error, or_add, required, max_runes, min_runes, email, one_of, matches,
}
use loon_site.Request.Messages.{
  Check, required_check, max_check, min_check, email_check, option_check, match_check, run_check,
  run_checks, checks-any,
}

-- The field that a check is about, and what its failure is.
abbrev pub field_of : Check → Bytes
field_of (required_check field value label) = field
field_of (max_check field value label most) = field
field_of (min_check field value label least) = field
field_of (email_check parses field value) = field
field_of (option_check field value allowed) = field
field_of (match_check field a b msg) = field

abbrev pub Fails : Check → Type 0
Fails (required_check field value label) = value ≡ []
Fails (max_check field value label most) = most < length value
Fails (min_check field value label least) = length value < least
Fails (email_check parses field value) = parses value ≡ false
Fails (option_check field value allowed) = ¬ (In value allowed)
Fails (match_check field a b msg) = a ≢ b

abbrev pub SomeFails : List Check → Type 0
SomeFails [] = ⊥
SomeFails (c ∷ checks) = Fails c ⊎ SomeFails checks

abbrev pub FailsAt : Bytes → List Check → Type 0
FailsAt at [] = ⊥
FailsAt at (c ∷ checks) = (Fails c × (field_of c ≡ at)) ⊎ FailsAt at checks

abbrev pub is_there : Option Bytes → Bool
is_there none = false
is_there (some m) = true

abbrev pub has_message : Bytes → Errors → Bool
has_message at e = is_there (lookup at e)

false_iff {ℓ} : {P : Type ℓ} (b : Bool) → (b ≡ true) ↔ P → (b ≡ false) ↔ ¬ P
false_iff true h = (λ e. absurd (cc), λ n. absurd (n (h.0 refl)))
false_iff false h = (λ e p. (let w = h.1 p in cc), λ n. refl)

not_iff {ℓ} : {P : Type ℓ} (b : Bool) → (b ≡ true) ↔ P → (not b ≡ false) ↔ P
not_iff true h = (λ e. h.0 refl, λ p. refl)
not_iff false h = (λ e. absurd (cc), λ p. absurd (let w = h.1 p in cc))

check-Fails :
    (c : Check) (e : Errors)
    → (passes : Bool) × (msg : Bytes) × (run_check c e ≡ or_add passes (field_of c) msg e)
      × ((passes ≡ false) ↔ Fails c)
unfolding run_check required max_runes min_runes email one_of matches
check-Fails (required_check field value label) e =
    (not (value == []), _, refl, not_iff (value == []) (bytes_beq_iff value []))
check-Fails (max_check field value label most) e =
    (not (ltb most (length value)), _, refl, ground arith)
check-Fails (min_check field value label least) e =
    (not (ltb (length value) least), _, refl, ground arith)
check-Fails (email_check parses field value) e = (parses value, _, refl, (λ h. h, λ h. h))
check-Fails (option_check field value allowed) e = (
  any (λ a. value == a) allowed,
  _,
  refl,
  false_iff (any (λ a. value == a) allowed) (any_equal-In value allowed),
)
check-Fails (match_check field a b msg) e =
    (a == b, _, refl, false_iff (a == b) (bytes_beq_iff a b))

or_implied : (a b : Bool) → (b ≡ true → a ≡ true) → a ≡ (a || b)
or_implied true b h = refl
or_implied false true h = h refl
or_implied false false h = refl

chosen_there :
    (b : Bool) (msg : Bytes) (o : Option Bytes)
    → is_there (if b then some msg else o) ≡ (is_there o || b)
chosen_there true msg none = refl
chosen_there true msg (some m) = refl
chosen_there false msg none = refl
chosen_there false msg (some m) = refl

add_error-has :
    (field msg at : Bytes) (e : Errors)
    → has_message at (add_error field msg e) ≡ (has_message at e || field == at)
unfolding add_error
add_error-has field msg at e = elim (Option-cases (lookup field e)) [
  | inr (m, there) ↦
      let kept : add_error field msg e ≡ e = rw there refl in
      let seen : (field == at) ≡ true → has_message at e ≡ true = λ same.
        let e' : field ≡ at = (bytes_beq_iff field at).0 same in
        let found : lookup at e ≡ some m = rw e' at there in ap is_there found in
      ap (has_message at) kept ∙ or_implied (has_message at e) (field == at) seen
  | inl missing ↦
      let added : add_error field msg e ≡ insert field msg e = rw missing refl in
      let chosen : is_there (if field == at then some msg else lookup at e)
          ≡ (has_message at e || field == at) =
        chosen_there (field == at) msg (lookup at e) in
      ap (has_message at) added ∙ ap is_there (lookup-insert field at msg e) ∙ chosen
]

or_add-passes :
    (passes : Bool) (field msg : Bytes) (e : Errors) → (or_add passes field msg e).1 ≡ passes
or_add-passes true field msg e = refl
or_add-passes false field msg e = refl

and_false :
    {P Q : Type 0} (a b : Bool) → (a ≡ false) ↔ P → (b ≡ false) ↔ Q → ((a && b) ≡ false) ↔ (P ⊎ Q)
and_false true b f g =
    (λ h. inr (g.0 h), λ h. elim h [ inl p ↦ absurd (let w = f.1 p in cc) | inr q ↦ g.1 q ])
and_false false b f g = (λ h. inl (f.0 refl), λ h. refl)

-- A message at the field from before, or from this check.
here_or_before :
    {P S : Type 0} (before passes same : Bool)
    → (passes ≡ false) ↔ P
    → (same ≡ true) ↔ S
    → ((before || (not passes && same)) ≡ true) ↔ ((before ≡ true) ⊎ (P × S))
here_or_before true passes same f g = (λ h. inl refl, λ h. refl)
here_or_before false true same f g = (
  λ h. absurd (cc),
  λ h. elim h [ inl e ↦ absurd (cc) | inr (p, q) ↦ absurd (let w = f.1 p in cc) ],
)
here_or_before false false true f g = (λ h. inr (f.0 refl, g.0 refl), λ h. refl)
here_or_before false false false f g = (
  λ h. absurd (cc),
  λ h. elim h [ inl e ↦ absurd (cc) | inr (p, q) ↦ absurd (let w = g.1 q in cc) ],
)

or_add-has :
    (passes : Bool) (field msg at : Bytes) (e : Errors)
    → has_message at (or_add passes field msg e).0
      ≡ (has_message at e || (not passes && (field == at)))
or_add-has true field msg at e = ground arith
or_add-has false field msg at e = add_error-has field msg at e

checks-fail :
    (checks : List Check) (e : Errors) → ((run_checks checks e).1 ≡ false) ↔ SomeFails checks
unfolding run_checks
checks-fail [] e = (λ h. absurd (cc), λ h. absurd h)
checks-fail (c ∷ checks) e =
    let (passes, msg, adds, fails) = check-Fails c e in
    let rest = checks-fail checks (or_add passes (field_of c) msg e).0 in
    let own : ((or_add passes (field_of c) msg e).1 ≡ false) ↔ Fails c =
      rw (or_add-passes passes (field_of c) msg e) fails in
    rw adds (
      and_false (or_add passes (field_of c) msg e).1
        (run_checks checks (or_add passes (field_of c) msg e).0).1 own rest)

checks-has :
    (at : Bytes) (checks : List Check) (e : Errors)
    → (has_message at (run_checks checks e).0 ≡ true)
      ↔ ((has_message at e ≡ true) ⊎ FailsAt at checks)
unfolding run_checks
checks-has at [] e =
    (λ h. inl h, λ h. elim h [ inl there ↦ there | inr none_there ↦ absurd none_there ])
checks-has at (c ∷ checks) e =
    let (passes, msg, adds, fails) = check-Fails c e in
    let rest = checks-has at checks (or_add passes (field_of c) msg e).0 in
    let here = or_add-has passes (field_of c) msg at e in
    let same = bytes_beq_iff (field_of c) at in
    let after = or_add passes (field_of c) msg e in
    let (now, then_there) =
      here_or_before (has_message at e) passes (field_of c == at) fails same in
    let (found, shown) = rest in
    let result : (has_message at (run_checks checks after.0).0 ≡ true)
        ↔ ((has_message at e ≡ true) ⊎ ((Fails c × (field_of c ≡ at)) ⊎ FailsAt at checks)) =
      (
        λ h. elim (found h) [
          | inr later ↦ inr (inr later)
          | inl mid ↦ elim (now (sym here ∙ mid)) [
            | inl before ↦ inl before
            | inr mine ↦ inr (inl mine)
          ]
        ],
        λ h. elim h [
          | inl before ↦ shown (inl (here ∙ then_there (inl before)))
          | inr (inl mine) ↦ shown (inl (here ∙ then_there (inr mine)))
          | inr (inr later) ↦ shown (inr later)
        ],
      ) in
    rw adds result

no_message : (at : Bytes) → has_message at [] ≡ true → ⊥
unfolding lookup
no_message at h = cc

-- A form has a message exactly when one of its checks fails, and it has one at a field exactly when
-- one of the checks of that field fails, whatever checks run in whatever order: a required value
-- fails that is empty, a value that has more characters than the most or fewer than the least, an
-- address that does not parse, a value that is none of the options, and two values that differ.
pub form_messages_iff :
    (checks : List Check) (at : Bytes)
    → ((any_error (run_checks checks []).0 ≡ true) ↔ SomeFails checks)
      × ((has_message at (run_checks checks []).0 ≡ true) ↔ FailsAt at checks)
unfolding any_error
form_messages_iff checks at =
    let shown : any_error (run_checks checks []).0 ≡ not (run_checks checks []).1 =
      checks-any checks [] in
    let (fails, failed) = checks-fail checks [] in
    let (there, has) = checks-has at checks [] in
    (
      (λ h. fails (ground (arith, shown, h)), λ f. (let w = failed f in ground (arith, shown, w))),
      (
        λ h. elim (there h) [ inl before ↦ absurd (no_message at before) | inr now ↦ now ],
        λ f. has (inr f),
      ),
    )
