-- ===== src/Metrics/Labels.antt =====
-- Two sets of labels share a series only when they are the same.
use loon_site.Prelude.{
  ℕ, ◌≡◌, refl, sym, subst, ap, ◌∙◌, false, Option, none, some, [], ◌∷◌, ◌++◌, append_assoc, ◌==◌,
  nat_eq, if◌then◌else◌, All, Bool-cases, inl, inr,
}
use mathlib.Core.List.Perm
use mathlib.Core.List.{Perm}
use loon_site.Prelude.Bytes.{Bytes}
use loon_site.Prelude.Text.{bytes_lt}
use loon_site.Metrics.{
  quote, escape_label, LabelSet, label_pair, more_labels, braced, label_string, sort_labels,
  insert_label,
}
use loon_site.Metrics.Escapes.{read_value, read-escape}

-- A name has no equals sign, as the format's names have none.
abbrev pub IsName : Bytes → Type 0
IsName [] = Unit
IsName (c ∷ k) = ((c == b'=') ≡ false) × IsName k

abbrev put_first : ℕ → Bytes × Bytes → Bytes × Bytes
put_first c r = (c ∷ r.0, r.1)

abbrev or_empty : Option (Bytes × Bytes) → Bytes × Bytes
or_empty none = ([], [])
or_empty (some r) = r

-- A text up to its first equals sign, and what follows.
read_name : Bytes → Bytes × Bytes
read_name [] = ([], [])
read_name (c ∷ s) = let rest = read_name s in if c == b'=' then ([], s) else put_first c rest

read-name : (k s : Bytes) → IsName k → read_name (k ++ (b'=' ∷ s)) ≡ (k, s)
unfolding read_name
read-name [] s h = refl
read-name (c ∷ k) s (plain, h) = rw (plain, read-name k s h) refl

-- What stands behind a name: its value, and the text after it.
abbrev value_text : Bytes → Bytes → Bytes
value_text v s = quote ∷ (escape_label v ++ (quote ∷ s))

pair_text : (k v s : Bytes) → label_pair k v ++ s ≡ k ++ (b'=' ∷ value_text v s)
unfolding label_pair
pair_text k v s =
    append_assoc k (b'=' ∷ quote ∷ (escape_label v ++ (quote ∷ []))) s
    ∙ ap (λ t. k ++ (b'=' ∷ quote ∷ t)) (append_assoc (escape_label v) (quote ∷ []) s)

abbrev drop_one : Bytes → Bytes
drop_one [] = []
drop_one (c ∷ s) = s

-- A name, a value and the text behind them can be read off.
pair-injective :
    (k v s k' v' s' : Bytes)
    → IsName k
    → IsName k'
    → label_pair k v ++ s ≡ label_pair k' v' ++ s'
    → (k ≡ k') × (v ≡ v') × (s ≡ s')
pair-injective k v s k' v' s' name name' e =
    let same : k ++ (b'=' ∷ value_text v s) ≡ k' ++ (b'=' ∷ value_text v' s') =
      sym (pair_text k v s) ∙ e ∙ pair_text k' v' s' in
    let parts : (k, value_text v s) ≡ (k', value_text v' s') =
      sym (read-name k (value_text v s) name)
      ∙ ap read_name same
      ∙ read-name k' (value_text v' s') name' in
    let values =
      sym (read-escape v s)
      ∙ ap (λ (t : Bytes × Bytes). read_value (drop_one t.1)) parts
      ∙ read-escape v' s' in
    let read = ap or_empty values in
    (
      ap (λ (t : Bytes × Bytes). t.0) parts,
      ap (λ (t : Bytes × Bytes). t.0) read,
      ap (λ (t : Bytes × Bytes). t.1) read,
    )

abbrev HasNames : LabelSet → Type 0
HasNames labels = All (λ l. IsName l.0) labels

cons_same :
    (k k' v v' : Bytes) (a b : LabelSet)
    → k ≡ k'
    → v ≡ v'
    → a ≡ b
    → ◌≡◌ {A = LabelSet} ((k, v) ∷ a) ((k', v') ∷ b)
cons_same k k' v v' a b e f g = cc

more_tail :
    (k v k' v' : Bytes) (a b : LabelSet)
    → more_labels ((k, v) ∷ a) ≡ more_labels ((k', v') ∷ b)
    → label_pair k v ++ more_labels a ≡ label_pair k' v' ++ more_labels b
unfolding more_labels
more_tail k v k' v' a b e = ap drop_one e

more_ends : (k v : Bytes) (a : LabelSet) → more_labels [] ≡ more_labels ((k, v) ∷ a) → ⊥
unfolding more_labels
more_ends k v a e = cc

more-injective : (a b : LabelSet) → HasNames a → HasNames b → more_labels a ≡ more_labels b → a ≡ b
more-injective [] [] names names' e = refl
more-injective [] ((k, v) ∷ b) names names' e = absurd (more_ends k v b e)
more-injective ((k, v) ∷ a) [] names names' e = absurd (more_ends k v a (sym e))
more-injective ((k, v) ∷ a) ((k', v') ∷ b) (name, names) (name', names') e =
    let (same_k, same_v, same) =
      pair-injective k v (more_labels a) k' v' (more_labels b) name name'
        (more_tail k v k' v' a b e) in
    cons_same k k' v v' a b same_k same_v (more-injective a b names names' same)

braced_tail :
    (k v k' v' : Bytes) (a b : LabelSet)
    → braced ((k, v) ∷ a) ≡ braced ((k', v') ∷ b)
    → label_pair k v ++ more_labels a ≡ label_pair k' v' ++ more_labels b
unfolding braced
braced_tail k v k' v' a b e = ap drop_one e

braced_ends : (k v : Bytes) (a : LabelSet) → braced [] ≡ braced ((k, v) ∷ a) → ⊥
unfolding braced
braced_ends k v a e = cc

braced-injective : (a b : LabelSet) → HasNames a → HasNames b → braced a ≡ braced b → a ≡ b
braced-injective [] [] names names' e = refl
braced-injective [] ((k, v) ∷ b) names names' e = absurd (braced_ends k v b e)
braced-injective ((k, v) ∷ a) [] names names' e = absurd (braced_ends k v a (sym e))
braced-injective ((k, v) ∷ a) ((k', v') ∷ b) (name, names) (name', names') e =
    let (same_k, same_v, same) =
      pair-injective k v (more_labels a) k' v' (more_labels b) name name'
        (braced_tail k v k' v' a b e) in
    cons_same k k' v v' a b same_k same_v (more-injective a b names names' same)

insert_label-HasNames :
    (k v : Bytes) (labels : LabelSet)
    → IsName k
    → HasNames labels
    → HasNames (insert_label k v labels)
unfolding insert_label
insert_label-HasNames k v [] name names = (name, tt)
insert_label-HasNames k v ((j, w) ∷ labels) name (here, names) = elim (Bool-cases (bytes_lt j k)) [
  | inl after ↦ rw after (here, insert_label-HasNames k v labels name names)
  | inr before ↦ rw before (name, (here, names))
]

sort-HasNames : (labels : LabelSet) → HasNames labels → HasNames (sort_labels labels)
unfolding sort_labels
sort-HasNames [] names = tt
sort-HasNames ((k, v) ∷ labels) (name, names) =
    insert_label-HasNames k v (sort_labels labels) name (sort-HasNames labels names)

insert_label-Perm :
    (k v : Bytes) (labels : LabelSet) → Perm (insert_label k v labels) ((k, v) ∷ labels)
unfolding insert_label
insert_label-Perm k v [] = Perm.refl ((k, v) ∷ [])
insert_label-Perm k v ((j, w) ∷ labels) = elim (Bool-cases (bytes_lt j k)) [
  | inl after ↦ rw after (
      Perm.trans (Perm.cons (j, w) (insert_label-Perm k v labels)) (Perm.swap (k, v) (j, w) labels))
  | inr before ↦ rw before (Perm.refl ((k, v) ∷ (j, w) ∷ labels))
]

sort_labels-Perm : (labels : LabelSet) → Perm (sort_labels labels) labels
unfolding sort_labels
sort_labels-Perm [] = Perm.refl []
sort_labels-Perm ((k, v) ∷ labels) =
    Perm.trans (insert_label-Perm k v (sort_labels labels))
      (Perm.cons (k, v) (sort_labels-Perm labels))

-- Two sets of labels are written alike, and so share a series of a histogram, only when one is the
-- other in another order: they have the same names with the same values, whatever characters are
-- in the values; the names have no equals sign.
pub label_string_injective :
    (a b : LabelSet)
    → All (λ l. IsName l.0) a
    → All (λ l. IsName l.0) b
    → label_string a ≡ label_string b
    → Perm a b
unfolding label_string
label_string_injective a b names names' e =
    let same =
      braced-injective (sort_labels a) (sort_labels b) (sort-HasNames a names)
        (sort-HasNames b names') e in
    Perm.trans (Perm.symm (sort_labels-Perm a))
      (subst (λ l. Perm l b) (sym same) (sort_labels-Perm b))
