-- ===== src/Metrics/Escapes.antt =====
-- A reader of the text format gets back the label value that was written.
use loon_site.Prelude.{
  ℕ, ◌≡◌, refl, ap, ◌∙◌, Option, none, some, [], ◌∷◌, ◌++◌, append_assoc, ◌==◌, nat_eq, nat_beq_iff,
  if◌then◌else◌, Bool-cases, inl, inr,
}
use loon_site.Prelude.Bytes.{Bytes}
use loon_site.Metrics.{newline, backslash, quote, replace_all, escape_label}

-- What the format says of the character behind a backslash.
abbrev pub unescaped : ℕ → Option ℕ
unescaped c =
    if c == backslash
    then some backslash
    else if c == quote
    then some quote
    else if c == b'n'
    then some newline
    else none

abbrev pub put_char : ℕ → Option (Bytes × Bytes) → Option (Bytes × Bytes)
put_char c none = none
put_char c (some (v, rest)) = some (c ∷ v, rest)

abbrev pub put_unescaped : Option ℕ → Option (Bytes × Bytes) → Option (Bytes × Bytes)
put_unescaped none r = none
put_unescaped (some c) r = put_char c r

-- A quoted value as the format defines it, up to its quote, and what follows; a line does not go
-- on.
pub read_value : Bytes → Option (Bytes × Bytes)
read_value [] = none
read_value (c ∷ []) = if c == quote then some ([], []) else none
read_value (c ∷ d ∷ s) =
    let plain = read_value (d ∷ s) in
    let behind = read_value s in
    if c == quote
    then some ([], d ∷ s)
    else (if c == newline
        then none
        else if c == backslash
        then put_unescaped (unescaped d) behind
        else put_char c plain)

-- One character of a value as the code writes it.
abbrev pub escaped : ℕ → Bytes
escaped c =
    if c == backslash
    then backslash ∷ backslash ∷ []
    else (if c == quote
        then backslash ∷ quote ∷ []
        else if c == newline
        then backslash ∷ b'n' ∷ []
        else c ∷ [])

escape_label-cons : (c : ℕ) (v : Bytes) → escape_label (c ∷ v) ≡ escaped c ++ escape_label v
unfolding escape_label replace_all
escape_label-cons c v = elim (Bool-cases (c == backslash)) [
  | inl slash ↦ rw slash refl
  | inr no_slash ↦ elim (Bool-cases (c == quote)) [
    | inl quotes ↦ rw (no_slash, quotes) refl
    | inr no_quote ↦ elim (Bool-cases (c == newline)) [
      | inl ends ↦ rw (no_slash, no_quote, ends) refl
      | inr plain ↦ rw (no_slash, no_quote, plain) refl
    ]
  ]
]

read_value-cons :
    (c : ℕ) (v s rest : Bytes)
    → read_value s ≡ some (v, rest)
    → read_value (escaped c ++ s) ≡ some (c ∷ v, rest)
unfolding read_value
read_value-cons c v [] rest h = absurd (cc)
read_value-cons c v (d ∷ s) rest h = elim (Bool-cases (c == backslash)) [
  | inl slash ↦ let e = (nat_beq_iff c backslash).0 slash in rw (slash, h, e) refl
  | inr no_slash ↦ elim (Bool-cases (c == quote)) [
    | inl quotes ↦ let e = (nat_beq_iff c quote).0 quotes in rw (no_slash, quotes, h, e) refl
    | inr no_quote ↦ elim (Bool-cases (c == newline)) [
      | inl ends ↦
          let e = (nat_beq_iff c newline).0 ends in rw (no_slash, no_quote, ends, h, e) refl
      | inr plain ↦ rw (no_slash, no_quote, plain, no_quote, plain, no_slash, h) refl
    ]
  ]
]

-- A label value survives the format: whatever characters it has, a reader that takes the written
-- value up to its closing quote gets the value back and goes on with exactly what was written
-- behind it.
pub read-escape : (v rest : Bytes) → read_value (escape_label v ++ (quote ∷ rest)) ≡ some (v, rest)
unfolding escape_label replace_all read_value
read-escape [] [] = refl
read-escape [] (c ∷ rest) = refl
read-escape (c ∷ v) rest =
    ap (λ s. read_value (s ++ (quote ∷ rest))) (escape_label-cons c v)
    ∙ ap read_value (append_assoc (escaped c) (escape_label v) (quote ∷ rest))
    ∙ read_value-cons c v (escape_label v ++ (quote ∷ rest)) rest (read-escape v rest)
