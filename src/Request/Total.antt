-- ===== src/Request/Total.antt =====
-- Reading a form cannot fail on what was sent.
use loon_site.Prelude.{
  ◌≡◌, refl, Bool, true, false, ◌||◌, not, some, List, [], ◌∷◌, All, Bool-cases, inl, inr,
}
use loon_site.Prelude.Bytes.{Bytes, bytes_eq}
use loon_site.Request.{
  Kind, pointer_to, text_kind, bool_kind, int_kind, other_kind, Value, zero_value, Shape, texts,
  single, Field, Held, Struct, FieldKey, field_key, Reading, Sent, set_field, bind_single,
  bind_held, bind_field, bind_struct,
}

-- The kinds that the code knows, also behind pointers.
abbrev pub IsKnown : Kind → Type 0
IsKnown (pointer_to k) = IsKnown k
IsKnown text_kind = Unit
IsKnown bool_kind = Unit
IsKnown int_kind = Unit
IsKnown other_kind = ⊥

abbrev pub IsKnownShape : Shape → Type 0
IsKnownShape texts = Unit
IsKnownShape (single k) = IsKnown k

-- Every field that is read has a kind that the code knows.
abbrev pub IsBindable : Field → Type 0
IsBindable f = (not f.is_exported || (field_key f).skip) ≡ false → IsKnownShape f.shape

module _ (go : Reading) where
  set_field_total :
      (k : Kind) (old : Value k) (s : Bytes) (present : Bool)
      → IsKnown k
      → (v : Value k) × (set_field go k old s present ≡ some v)
  unfolding set_field
  set_field_total (pointer_to k) old s true known =
      let (v, e) = set_field_total k (zero_value k) s true known in (some v, rw e refl)
  set_field_total (pointer_to k) old s false known = (old, refl)
  set_field_total text_kind old s present known = (s, refl)
  set_field_total bool_kind old s present known = (_, refl)
  set_field_total int_kind old s present known = (_, refl)
  set_field_total other_kind old s present known = elim known [ ]

  bind_held_total :
      (shape : Shape) (old : Held shape) (key : FieldKey) (sent : Sent)
      → IsKnownShape shape
      → (v : Held shape) × (bind_held go shape old key sent ≡ some v)
  unfolding bind_held bind_single
  bind_held_total texts old key sent known = (sent.get_all key.key, refl)
  bind_held_total (single k) old key sent known = set_field_total k old _ _ known

  bind_field_total :
      (f : Field) (old : Held f.shape) (sent : Sent)
      → IsBindable f
      → (v : Held f.shape) × (bind_field go f old sent ≡ some v)
  unfolding bind_field
  bind_field_total f old sent bindable =
      elim (Bool-cases (not f.is_exported || (field_key f).skip)) [
        | inl left ↦ (old, rw left refl)
        | inr read ↦
            let (v, e) = bind_held_total f.shape old (field_key f) sent (bindable read) in
            (v, rw (read, e) refl)
      ]

  -- Reading a form never fails on what a member sent: for a struct each of whose read fields has a
  -- kind that the code knows, every request, whatever is missing or is no number, gives a value
  -- for every field, of the type of the field.
  pub bind_total :
      (fields : List Field) (old : Struct fields) (sent : Sent)
      → All IsBindable fields
      → (s : Struct fields) × (bind_struct go fields old sent ≡ some s)
  unfolding bind_struct
  bind_total [] old sent known = (tt, refl)
  bind_total (f ∷ fields) (first, old) sent (known, rest) =
      let (v, e) = bind_field_total f first sent known in
      let (s, e') = bind_total fields old sent rest in ((v, s), rw (e, e') refl)
