-- ===== src/Request/Tests.antt =====
-- Tests of the model of forms, and its theorems at concrete inputs.
use loon_site.Prelude.{
  ℕ, ◌+◌, ◌&&◌, ◌≡◌, ◌↔◌, refl, Bool, true, false, not, Option, none, some, List, [], ◌∷◌, map, leb,
  if◌then◌else◌, ◌==◌, nat_eq, lookup,
}
use loon_site.Prelude.Int.{ℤ, pos}
use loon_site.Prelude.Bytes.{Bytes, codes, bytes_eq}
use loon_site.Request.{
  Field, Struct, Reading, Sent, texts, single, pointer_to, bool_kind, int_kind, other_kind,
  text_kind, bind_struct, snake, field_key,
}
use loon_site.Request.Checks.{any_error, first_error}
use loon_site.Request.Total.{bind_total}
use loon_site.Request.Messages.{Check, required_check, max_check, match_check, run_checks}
use loon_site.Request.Failures.{SomeFails, FailsAt, has_message, form_messages_iff}

-- Reads one digit, and folds ASCII.
abbrev one_digit : Bytes → Option ℤ
one_digit s = if s == codes "6" then some (pos 6) else none

abbrev plain : Reading
plain = record {
  is_space = λ c. c == 32;
  to_lower = map (λ c. if leb 65 c && leb c 90 then c + 32 else c);
  parse_int = one_digit;
}

abbrev fields : List Field
fields =
    record {
      name = codes "SeasonNo";
      is_exported = true;
      tag = none;
      shape = single (pointer_to int_kind);
    }
    ∷ record {
      name = codes "PrivateProfile";
      is_exported = true;
      tag = none;
      shape = single bool_kind;
    }
    ∷ record {
      name = codes "Mode";
      is_exported = true;
      tag = some (codes "-");
      shape = single other_kind;
    }
    ∷ record {
      name = codes "Tags";
      is_exported = true;
      tag = some (codes "tag,raw");
      shape = texts;
    }
    ∷ []

abbrev blank : Struct fields
blank = (none, (false, (tt, ([], tt))))

abbrev ticked : Sent
ticked = record {
  get = λ k. if k == codes "private_profile" then some (codes " On ") else none;
  get_all = λ k. if k == codes "tag" then codes "a" ∷ [] else [];
}

bind_total_example : (s : Struct fields) × (bind_struct plain fields blank ticked ≡ some s)
unfolding field_key loon_site.Request.cut_comma loon_site.Request.split_commas
    loon_site.Request.snake
bind_total_example =
    bind_total plain fields blank ticked
      ((λ read. tt), ((λ read. tt), ((λ read. absurd (cc)), ((λ read. tt), tt))))

bound : bind_struct plain fields blank ticked ≡ some (none, (true, (tt, (codes "a" ∷ [], tt))))
unfolding bind_struct loon_site.Request.truthy loon_site.Prelude.Text.trim_space
bound = refl

snaked : snake (codes "APIKeyID") ≡ codes "api_key_id"
unfolding snake
snaked = refl

abbrev checks : List Check
checks =
    required_check (codes "name") [] (codes "Name")
    ∷ max_check (codes "name") (codes "abc") (codes "Name") 2
    ∷ match_check (codes "again") (codes "a") (codes "b") (codes "No match.")
    ∷ []

form_messages_iff_example :
    ((any_error (run_checks checks []).0 ≡ true) ↔ SomeFails checks)
    × ((has_message (codes "again") (run_checks checks []).0 ≡ true)
        ↔ FailsAt (codes "again") checks)
form_messages_iff_example = form_messages_iff checks (codes "again")

first_of_two : first_error [] ((codes "b", codes "B.") ∷ (codes "a", codes "A.") ∷ []) ≡ codes "A."
unfolding first_error lookup loon_site.Prelude.Text.bytes_lt
first_of_two = refl
