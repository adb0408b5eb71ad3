-- ===== src/Request/Checks.antt =====
-- internal/request/request.go: the messages of a form's checks, one for a field.
use loon_site.Prelude.{
  ℕ, Bool, true, false, not, Option, none, some, List, [], ◌∷◌, ◌++◌, ltb, ◌==◌, if◌then◌else◌,
  lookup, insert, length, any,
}
use loon_site.Prelude.Bytes.{Bytes, bytes_eq, codes}
use loon_site.Prelude.Text.{bytes_lt}
use loon_site.Prelude.Decimal.{format}

-- `Errors`
abbrev pub Errors : Type 0
Errors = List (Bytes × Bytes)

abbrev pub add_unseen : Bytes → Bytes → Option Bytes → Errors → Errors
add_unseen field msg none e = insert field msg e
add_unseen field msg (some seen) e = e

-- `Errors.Add`
unfoldable pub add_error : Bytes → Bytes → Errors → Errors
add_error field msg e = add_unseen field msg (lookup field e) e

-- `Errors.Any`
unfoldable pub any_error : Errors → Bool
any_error e = ltb 0 (length e)

-- The smallest field, by the second loop of `First`.
unfoldable pub best_field : Bytes → Errors → Bytes
best_field best [] = best
best_field best ((f, m) ∷ e) =
    best_field (if best == [] then f else if bytes_lt f best then f else best) e

abbrev pub or_no_message : Option Bytes → Bytes
or_no_message none = []
or_no_message (some m) = m

abbrev pub or_else_message : Option Bytes → Bytes → Bytes
or_else_message none m = m
or_else_message (some m) other = m

-- `Errors.First`
unfoldable pub first_error : List Bytes → Errors → Bytes
unfolding best_field
first_error [] e = or_no_message (lookup (best_field [] e) e)
first_error (f ∷ order) e = let rest = first_error order e in or_else_message (lookup f e) rest

abbrev pub or_add : Bool → Bytes → Bytes → Errors → Errors × Bool
or_add true field msg e = (e, true)
or_add false field msg e = (add_error field msg e, false)

-- `Required`
unfoldable pub required : Bytes → Bytes → Bytes → Errors → Errors × Bool
required field value label e = or_add (not (value == [])) field (label ++ codes " is required.") e

-- `MaxRunes`
unfoldable pub max_runes : Bytes → Bytes → Bytes → ℕ → Errors → Errors × Bool
max_runes field value label most e =
    or_add (not (ltb most (length value))) field
      (label
        ++ codes " is too long — "
        ++ format (length value)
        ++ codes " characters, and the limit is "
        ++ format most
        ++ codes ".")
      e

-- `MinRunes`
unfoldable pub min_runes : Bytes → Bytes → Bytes → ℕ → Errors → Errors × Bool
min_runes field value label least e =
    or_add (not (ltb (length value) least)) field
      (label ++ codes " must be at least " ++ format least ++ codes " characters.") e

-- `Email`, where `parses` is mail.ParseAddress.
unfoldable pub email : (Bytes → Bool) → Bytes → Bytes → Errors → Errors × Bool
email parses field value e =
    or_add (parses value) field (codes "That does not look like an email address.") e

-- `OneOf`
unfoldable pub one_of : Bytes → Bytes → List Bytes → Errors → Errors × Bool
one_of field value allowed e =
    or_add (any (λ a. value == a) allowed) field (codes "That is not one of the available options.")
      e

-- `Matches`
unfoldable pub matches : Bytes → Bytes → Bytes → Bytes → Errors → Errors × Bool
matches field a b msg e = or_add (a == b) field msg e
