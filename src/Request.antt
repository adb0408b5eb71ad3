-- ===== src/Request.antt =====
-- internal/request/bind.go and internal/request/request.go: a form's fields read into a struct,
-- and the messages of its checks. Texts are lists of code points. A struct's type is the list of
-- its fields, and the type of what it holds is computed from that; the reflection of Go is this
-- list. strconv.ParseInt, the lower case of Unicode, its spaces and net/mail are parameters, and
-- so is what the request sent.
pub mod Checks
pub mod Total
pub mod Messages
pub mod Failures
mod Tests
use loon_site.Prelude.{
  ℕ, zero, suc, ◌+◌, ◌-◌, Bool, true, false, ◌&&◌, ◌||◌, not, Option, none, some, List, [], ◌∷◌,
  ◌++◌, ltb, leb, ◌==◌, nat_eq, if◌then◌else◌, lookup, insert, length, any,
}
use loon_site.Prelude.Int.{ℤ, pos}
use loon_site.Prelude.Bytes.{Bytes, bytes_eq, codes}
use loon_site.Prelude.Text.{trim_space}
use loon_site.Prelude.Decimal.{format}

-- The kinds of a single field that `setField` tells apart.
pub data Kind : Type 0 where
  pointer_to : Kind → Kind
  text_kind bool_kind int_kind other_kind : Kind

-- What a field of a kind holds; a nil pointer is none.
abbrev pub Value : Kind → Type 0
Value (pointer_to k) = Option (Value k)
Value text_kind = Bytes
Value bool_kind = Bool
Value int_kind = ℤ
Value other_kind = Unit

-- What `reflect.New` points to.
abbrev pub zero_value : (k : Kind) → Value k
zero_value (pointer_to k) = none
zero_value text_kind = []
zero_value bool_kind = false
zero_value int_kind = pos 0
zero_value other_kind = tt

-- A field: a list of texts or a single value, its name and its tag.
pub data Shape : Type 0 where
  texts : Shape
  single : Kind → Shape

pub record Field : Type 0 where
  pub name : Bytes
  pub is_exported : Bool
  pub tag : Option Bytes
  pub shape : Shape

abbrev pub Held : Shape → Type 0
Held texts = List Bytes
Held (single k) = Value k

-- What a struct of these fields holds.
abbrev pub Struct : List Field → Type 0
Struct [] = Unit
Struct (f ∷ fields) = Held f.shape × Struct fields

abbrev pub is_upper : ℕ → Bool
is_upper c = leb b'A' c && leb c b'Z'

abbrev pub is_lower : ℕ → Bool
is_lower c = leb b'a' c && leb c b'z'

abbrev pub starts_lower : Bytes → Bool
starts_lower [] = false
starts_lower (c ∷ s) = is_lower c

-- The loop of `snake`, behind a character: `before` says that there is one, and `lower` that it is
-- a lower-case letter.
unfoldable pub snake_from : Bool → Bool → Bytes → Bytes
snake_from before lower [] = []
snake_from before lower (c ∷ s) =
    let rest = snake_from true (is_lower c) s in
    if is_upper c
    then (if before && (lower || starts_lower s)
        then b'_' ∷ (c - b'A' + b'a') ∷ rest
        else (c - b'A' + b'a') ∷ rest)
    else c ∷ rest

-- `snake`
unfoldable pub snake : Bytes → Bytes
unfolding snake_from
snake name = snake_from false false name

-- `strings.Cut(tag, ",")`: what is before the first comma, and what is behind it.
unfoldable pub cut_comma : Bytes → Bytes × Bytes
cut_comma [] = ([], [])
cut_comma (c ∷ s) = let rest = cut_comma s in if c == b',' then ([], s) else (c ∷ rest.0, rest.1)

abbrev pub push_front : ℕ → List Bytes → List Bytes
push_front c [] = (c ∷ []) ∷ []
push_front c (part ∷ parts) = (c ∷ part) ∷ parts

-- `strings.Split(opts, ",")`
unfoldable pub split_commas : Bytes → List Bytes
split_commas [] = [] ∷ []
split_commas (c ∷ s) =
    let rest = split_commas s in if c == b',' then [] ∷ rest else push_front c rest

-- `slicesContains`
abbrev pub slices_contains : List Bytes → Bytes → Bool
slices_contains ss want = any (λ s. s == want) ss

-- The key of a field, whether it is raw, and whether it is skipped.
pub record FieldKey : Type 0 where
  pub key : Bytes
  pub raw : Bool
  pub skip : Bool

-- `fieldKey`
abbrev pub tag_of : Option Bytes → Bytes
tag_of none = []
tag_of (some tag) = tag

unfoldable pub field_key : Field → FieldKey
unfolding cut_comma split_commas snake
field_key f =
    let parts = cut_comma (tag_of f.tag) in
    let raw = slices_contains (split_commas parts.1) (codes "raw") in
    if parts.0 == b'-' ∷ []
    then record { key = []; raw = raw; skip = true }
    else (if parts.0 == []
        then record { key = snake f.name; raw = raw; skip = false }
        else record { key = parts.0; raw = raw; skip = false })

-- What the code calls that is not its own.
pub record Reading : Type 0 where
  pub is_space : ℕ → Bool
  pub to_lower : Bytes → Bytes
  pub parse_int : Bytes → Option ℤ

-- What the request sent under a key: one value, when there is one, and all of them.
pub record Sent : Type 0 where
  pub get : Bytes → Option Bytes
  pub get_all : Bytes → List Bytes

abbrev pub int_or_zero : Option ℤ → ℤ
int_or_zero none = pos 0
int_or_zero (some n) = n

abbrev pub or_blank : Option Bytes → Bytes
or_blank none = []
or_blank (some s) = s

abbrev pub is_present : Option Bytes → Bool
is_present none = false
is_present (some s) = true

abbrev pub pointing : {A : Type 0} → Option A → Option (Option A)
pointing none = none
pointing (some a) = some (some a)

abbrev pub joined_fields : {A B : Type 0} → Option A → Option B → Option (A × B)
joined_fields none b = none
joined_fields (some a) none = none
joined_fields (some a) (some b) = some (a, b)

module _ (go : Reading) where
  -- `truthy`
  unfoldable pub truthy : Bytes → Bool
  truthy s =
      let low = go.to_lower s in
      low == codes "1" || (low == codes "true" || (low == codes "yes" || low == codes "on"))

  -- `setField`, on what the field holds before; none for the error of a kind that it does not know.
  unfoldable pub set_field : (k : Kind) → Value k → Bytes → Bool → Option (Value k)
  set_field (pointer_to k) old s present =
      let p = set_field k (zero_value k) s present in if present then pointing p else some old
  set_field text_kind old s present = some s
  set_field bool_kind old s present = some (present && truthy s)
  set_field int_kind old s present = some (if s == [] then pos 0 else int_or_zero (go.parse_int s))
  set_field other_kind old s present = none

  -- One field of the loop of `bindStruct`.
  unfoldable pub bind_single : (k : Kind) → Value k → Bool → Option Bytes → Option (Value k)
  unfolding set_field
  bind_single k old raw sent =
      let s = if raw then or_blank sent else trim_space go.is_space (or_blank sent) in
      set_field k old s (is_present sent)

  unfoldable pub bind_held : (shape : Shape) → Held shape → FieldKey → Sent → Option (Held shape)
  unfolding bind_single
  bind_held texts old key sent = some (sent.get_all key.key)
  bind_held (single k) old key sent = bind_single k old key.raw (sent.get key.key)

  unfoldable pub bind_field : (f : Field) → Held f.shape → Sent → Option (Held f.shape)
  unfolding bind_held field_key
  bind_field f old sent =
      let key = field_key f in
      let value = bind_held f.shape old key sent in
      if not f.is_exported || key.skip then some old else value

  -- `bindStruct`, on what the struct holds before.
  unfoldable pub bind_struct : (fields : List Field) → Struct fields → Sent → Option (Struct fields)
  unfolding bind_field
  bind_struct [] old sent = some tt
  bind_struct (f ∷ fields) (first, old) sent =
      joined_fields (bind_field f first sent) (bind_struct fields old sent)
