-- ===== src/CatalogChain/Index.antt =====
-- `TitleIndex` and `Fetch`: the sources' indexes merged, and the way back from an id.
use loon_site.Prelude.{
  ℕ, suc, ◌+◌, ◌≤◌, ◌<◌, ◌≡◌, refl, sym, ap, ◌∙◌, Option, none, some, List, [], ◌∷◌, length,
  get_elem?, ◌==◌, if◌then◌else◌, arith, Option-cases, inl, inr, lookup, insert, lookup-insert,
  Distinct, All,
}
use loon_site.Prelude.Int.{ℤ, pos}
use loon_site.Prelude.Bytes.{Bytes, bytes_eq, bytes_beq_iff}
use loon_site.CatalogChain.{Source, Chain, encode, decode}
use loon_site.CatalogChain.Ids.{decode-encode, max_sources}

abbrev pub TitleMap : Type 0
TitleMap = List (Bytes × ℤ)

-- `if _, taken := out[title]; taken { continue }`, and the refusal of an id out of range.
unfoldable pub merge_entry : ℕ → Bytes → ℤ → TitleMap → TitleMap
merge_entry i title id out = elim (lookup title out) [
  | some taken ↦ out
  | none ↦ elim (encode i id) [ none ↦ out | some enc ↦ insert title enc out ]
]

unfoldable pub merge_index : ℕ → TitleMap → TitleMap → TitleMap
unfolding merge_entry
merge_index i [] out = out
merge_index i ((title, id) ∷ idx) out = merge_index i idx (merge_entry i title id out)

-- A source that fails is skipped.
unfoldable pub merge_source : ℕ → Option TitleMap → TitleMap → TitleMap
unfolding merge_index
merge_source i none out = out
merge_source i (some idx) out = merge_index i idx out

module _ {Entry : Type 0} where
  unfoldable pub merge_sources : ℕ → List (Source Entry) → TitleMap → TitleMap
  unfolding merge_source
  merge_sources i [] out = out
  merge_sources i (src ∷ srcs) out = merge_sources (i + 1) srcs (merge_source i src.title_index out)

  unfoldable pub title_index : Chain Entry → TitleMap
  unfolding merge_sources
  title_index c = merge_sources 0 c.sources []

  -- The source at a position, asked for a local id.
  unfoldable pub fetch_from : Option (Source Entry) → ℕ → Option Entry
  fetch_from none local = none
  fetch_from (some src) local = src.fetch (pos local)

  unfoldable pub fetch : Chain Entry → ℤ → Option Entry
  unfolding fetch_from
  fetch c id = elim (decode id (length c.sources)) [
    | none ↦ none
    | some (i, local) ↦ fetch_from (get_elem? c.sources i) local
  ]

-- The first of two answers.
abbrev pub or_else {ℓ} : {A : Type ℓ} → Option A → Option A → Option A
or_else none b = b
or_else (some a) b = some a

-- The chain's id for what a source has under a title.
abbrev pub encode_found : ℕ → Option ℤ → Option ℤ
encode_found i none = none
encode_found i (some id) = encode i id

abbrev pub index_entry : ℕ → Bytes → Option TitleMap → Option ℤ
index_entry i title none = none
index_entry i title (some idx) = encode_found i (lookup title idx)

-- The id of the first source, in order, that has the title under an id in range.
abbrev pub first_entry : {Entry : Type 0} → ℕ → Bytes → List (Source Entry) → Option ℤ
first_entry i title [] = none
first_entry i title (src ∷ srcs) =
    or_else (index_entry i title src.title_index) (first_entry (i + 1) title srcs)

abbrev pub DistinctIndex : Option TitleMap → Type 0
DistinctIndex none = Unit
DistinctIndex (some idx) = Distinct idx

lookup-merge_entry :
    (i : ℕ) (k : Bytes) (id : ℤ) (t : Bytes) (out : TitleMap)
    → lookup t (merge_entry i k id out)
      ≡ (if k == t then or_else (lookup t out) (encode i id) else lookup t out)
unfolding merge_entry
lookup-merge_entry i k id t out = elim (Option-cases (lookup k out)) [
  | inl free ↦ elim (Option-cases (encode i id)) [
    | inl refused ↦ ground (arith, bytes_beq_iff k t)
    | inr (enc, fits) ↦ ground (arith, bytes_beq_iff k t, lookup-insert k t enc out)
  ]
  | inr (old, taken) ↦ ground (arith, bytes_beq_iff k t)
]

lookup-merge_index :
    (i : ℕ) (t : Bytes) (idx out : TitleMap)
    → Distinct idx
    → lookup t (merge_index i idx out) ≡ or_else (lookup t out) (encode_found i (lookup t idx))
unfolding merge_index lookup
lookup-merge_index i t [] out d = ground arith
lookup-merge_index i t ((k, id) ∷ idx) out (new, d) = ground (
  arith,
  bytes_beq_iff k t,
  lookup-merge_entry i k id t out,
  lookup-merge_index i t idx (merge_entry i k id out) d,
)

lookup-merge_source :
    (i : ℕ) (t : Bytes) (index : Option TitleMap) (out : TitleMap)
    → DistinctIndex index
    → lookup t (merge_source i index out) ≡ or_else (lookup t out) (index_entry i t index)
unfolding merge_source
lookup-merge_source i t none out d = ground arith
lookup-merge_source i t (some idx) out d = lookup-merge_index i t idx out d

index_entry_found :
    (i : ℕ) (t : Bytes) (index : Option TitleMap) (e : ℤ)
    → index_entry i t index ≡ some e
    → (idx : TitleMap) × (local : ℤ) × (index ≡ some idx)
      × (lookup t idx ≡ some local)
      × (encode i local ≡ some e)
index_entry_found i t none e h = absurd (cc)
index_entry_found i t (some idx) e h = elim (Option-cases (lookup t idx)) [
  | inl missing ↦ absurd (let h' = rw missing at h in cc)
  | inr (local, found) ↦ (idx, local, refl, found, rw found at h)
]

or_else_assoc {ℓ} :
    {A : Type ℓ} (a b c : Option A) → or_else (or_else a b) c ≡ or_else a (or_else b c)
or_else_assoc none b c = refl
or_else_assoc (some x) b c = refl

module _ {Entry : Type 0} where
  abbrev pub DistinctIndexes : List (Source Entry) → Type 0
  DistinctIndexes = All (λ src. DistinctIndex src.title_index)

  lookup-merge_sources :
      (i : ℕ) (t : Bytes) (srcs : List (Source Entry)) (out : TitleMap)
      → DistinctIndexes srcs
      → lookup t (merge_sources i srcs out) ≡ or_else (lookup t out) (first_entry i t srcs)
  unfolding merge_sources
  lookup-merge_sources i t [] out d = ground arith
  lookup-merge_sources i t (src ∷ srcs) out (here, d) =
      lookup-merge_sources (i + 1) t srcs (merge_source i src.title_index out) d
      ∙ ap (λ o. or_else o (first_entry (i + 1) t srcs))
          (lookup-merge_source i t src.title_index out here)
      ∙ or_else_assoc (lookup t out) (index_entry i t src.title_index) (first_entry (i + 1) t srcs)

  -- The merged index has for each title what the first source in order has that knows it under an
  -- id in range; a source whose index fails loses nothing of the others'. (No index of a source
  -- has a title twice, as no Go map has.)
  pub lookup-title_index :
      (c : Chain Entry) (title : Bytes)
      → DistinctIndexes c.sources
      → lookup title (title_index c) ≡ first_entry 0 title c.sources
  unfolding title_index
  lookup-title_index c title d = lookup-merge_sources 0 title c.sources [] d ∙ unfold lookup in refl

  -- Where an entry of the merged index comes from.
  abbrev pub ComesFrom : Chain Entry → Bytes → ℤ → Type 0
  ComesFrom c title id =
      (i : ℕ) × (src : Source Entry) × (idx : TitleMap) × (local : ℕ) × (get_elem? c.sources i
        ≡ some src)
      × (src.title_index ≡ some idx)
      × (lookup title idx ≡ some (pos local))
      × (fetch c id ≡ src.fetch (pos local))

  first_entry_found :
      (k : ℕ) (title : Bytes) (srcs : List (Source Entry)) (id : ℤ)
      → first_entry k title srcs ≡ some id
      → (j : ℕ) × (src : Source Entry) × (idx : TitleMap) × (local : ℤ) × (j < length srcs)
        × (get_elem? srcs j ≡ some src)
        × (src.title_index ≡ some idx)
        × (lookup title idx ≡ some local)
        × (encode (k + j) local ≡ some id)
  first_entry_found k title [] id h = absurd (cc)
  first_entry_found k title (src ∷ srcs) id h =
      elim (Option-cases (index_entry k title src.title_index)) [
        | inl missing ↦
            let (j, s, idx, local, below, at, index, found, enc) =
              first_entry_found (k + 1) title srcs id (rw missing at h) in
            (
              suc j,
              s,
              idx,
              local,
              omega arith,
              at,
              index,
              found,
              ap (λ n. encode n local) (omega arith) ∙ enc,
            )
        | inr (e, there) ↦
            let same : e ≡ id = ground arith in
            let (idx, local, index, found, enc) =
              index_entry_found k title src.title_index e there in
            (
              0,
              src,
              idx,
              local,
              omega arith,
              refl,
              index,
              found,
              ap (λ n. encode n local) (omega arith) ∙ enc ∙ ap some same,
            )
      ]

  -- Every id of the merged index leads `Fetch` back to the source that knows the title, under the
  -- id that this source has for it, in a chain of at most 9,223,372 sources. (No index of a source
  -- has a title twice.)
  pub fetch-title_index :
      (c : Chain Entry) (title : Bytes) (id : ℤ)
      → DistinctIndexes c.sources
      → length c.sources ≤ max_sources
      → lookup title (title_index c) ≡ some id
      → ComesFrom c title id
  unfolding fetch
  fetch-title_index c title id d most h =
      let first = sym (lookup-title_index c title d) ∙ h in
      let (i, src, idx, local, below, at, index, found, enc) =
        first_entry_found 0 title c.sources id first in
      let enc' = ap (λ n. encode n local) (omega arith) ∙ enc in
      let (k, is_local, _, dec) = decode-encode i (length c.sources) local id below most enc' in
      (i, src, idx, k, at, index, found ∙ ap some is_local, rw (dec, fetch, at) refl)
