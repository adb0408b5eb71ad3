-- ===== src/CatalogChain/Confirm.antt =====
-- What a title search accepts.
use loon_site.Prelude.{
  ℕ, ◌+◌, ◌≤◌, ◌<◌, ◌≡◌, ◌⊎◌, sym, ap, ◌∙◌, true, Option, none, some, length, get_elem?, arith,
  Bool-cases, Option-cases, inl, inr, first_some-IsFirst, first_some-none,
}
use loon_site.Prelude.Int.{ℤ}
use loon_site.Prelude.Bytes.{Bytes, bytes_eq}
use loon_site.CatalogChain.{Source, Chain, Ratio, encode, reaches, threshold}
use loon_site.CatalogChain.Ids.{decode-encode, max_sources}
use loon_site.CatalogChain.Index.{fetch}
use loon_site.CatalogChain.Similar.{similar}
use loon_site.CatalogChain.Search.{
  ask_one, confirms, accept, find_by_title, search_one, search_chain,
}

module _ {Entry : Type 0} (lower : ℕ → ℕ) (title : Entry → Bytes) where
  -- What the chain demands of a candidate: the source names it, its entry can be read, and its
  -- title is close enough to the one that was searched for.
  abbrev pub IsConfirmed : Ratio → Source Entry → Bytes → ℤ → Entry → Type 0
  IsConfirmed t src raw local entry =
      (ask_one src raw ≡ some local)
      × (src.fetch local ≡ some entry)
      × (reaches (similar lower (title entry) raw) t ≡ true)

  confirms-IsClose :
      (t : Ratio) (src : Source Entry) (local : ℤ) (raw : Bytes)
      → confirms lower title t src local raw ≡ true
      → (entry : Entry) × (src.fetch local ≡ some entry)
        × (reaches (similar lower (title entry) raw) t ≡ true)
  unfolding confirms
  confirms-IsClose t src local raw h = elim (Option-cases (src.fetch local)) [
    | inl unread ↦ absurd (ground arith)
    | inr (entry, read) ↦ (entry, read, ground arith)
  ]

  accept-IsConfirmed :
      (t : Ratio) (i : ℕ) (src : Source Entry) (raw : Bytes) (id : ℤ)
      → accept lower title t i src raw ≡ some id
      → (local : ℤ) × (entry : Entry) × IsConfirmed t src raw local entry
        × (encode i local ≡ some id)
  unfolding accept
  accept-IsConfirmed t i src raw id h = elim (Option-cases (ask_one src raw)) [
    | inl silent ↦ absurd (ground arith)
    | inr (local, named) ↦
        let sure : confirms lower title t src local raw ≡ true = ground arith in
        let enc : encode i local ≡ some id = ground arith in
        let (entry, read, close) = confirms-IsClose t src local raw sure in
        (local, entry, (named, read, close), enc)
  ]

  -- A title search returns an id that leads `Fetch` to an entry which its source names for the
  -- title, which could be read and whose title reaches the chain's threshold; every source before
  -- that one was turned down. (In a chain of at most 9,223,372 sources.)
  pub find_by_title_sound :
      (c : Chain Entry) (raw : Bytes) (id : ℤ)
      → length c.sources ≤ max_sources
      → find_by_title lower title c raw ≡ some id
      → (i : ℕ) × (src : Source Entry) × (local : ℤ) × (entry : Entry) × (get_elem? c.sources i
          ≡ some src)
        × IsConfirmed (threshold c) src raw local entry
        × (fetch c id ≡ some entry)
        × ((j : ℕ) (s : Source Entry)
            → j < i
            → get_elem? c.sources j ≡ some s
            → accept lower title (threshold c) j s raw ≡ none)
  unfolding find_by_title fetch
  find_by_title_sound c raw id most h =
      let (i, src, below, at, found, before) = first_some-IsFirst _ 0 c.sources id h in
      let zero_add = λ (n : ℕ). let e : 0 + n ≡ n = omega arith in e in
      let found' =
        ap (λ n. accept lower title (threshold c) n src raw) (sym (zero_add i)) ∙ found in
      let (local, entry, confirmed, enc) = accept-IsConfirmed (threshold c) i src raw id found' in
      let (k, is_local, _, dec) = decode-encode i (length c.sources) local id below most enc in
      (
        i,
        src,
        local,
        entry,
        at,
        confirmed,
        rw (dec, fetch, at) (ap src.fetch (sym is_local) ∙ confirmed.1),
        λ j s lt there.
            ap (λ n. accept lower title (threshold c) n s raw) (sym (zero_add j))
            ∙ before j s lt there,
      )

  -- A title search that fails has turned every source down.
  pub find_by_title-none :
      (c : Chain Entry) (raw : Bytes)
      → find_by_title lower title c raw ≡ none
      → (i : ℕ) (src : Source Entry) → get_elem? c.sources i ≡ some src
      → accept lower title (threshold c) i src raw ≡ none
  unfolding find_by_title
  find_by_title-none c raw h i src at =
      ap (λ n. accept lower title (threshold c) n src raw) (omega arith)
      ∙ first_some-none _ 0 c.sources h i src at

  -- How a source answers a query: by its own search, or by a confirmed candidate.
  abbrev pub Answers : Ratio → Source Entry → Bytes → Entry → Type 0
  Answers t src query entry =
      ((run : Bytes → Option Entry) × (src.searcher ≡ some run) × (run query ≡ some entry))
      ⊎ ((local : ℤ) × (src.searcher ≡ none) × IsConfirmed t src query local entry)

  search_one-Answers :
      (t : Ratio) (src : Source Entry) (query : Bytes) (entry : Entry)
      → search_one lower title t src query ≡ some entry
      → Answers t src query entry
  unfolding search_one
  search_one-Answers t src query entry h = elim (Option-cases src.searcher) [
    | inr (run, own) ↦ inl (run, own, ground arith)
    | inl lacking ↦ elim (Option-cases (ask_one src query)) [
      | inl silent ↦ absurd (ground arith)
      | inr (local, named) ↦ elim (Option-cases (src.fetch local)) [
        | inl unread ↦ absurd (ground arith)
        | inr (e, read) ↦ elim (Bool-cases (reaches (similar lower (title e) query) t)) [
          | inl close ↦
              let same : e ≡ entry = ground arith in
              inr (local, lacking, (named, read ∙ ap some same, rw (← same) close))
          | inr far ↦ absurd (ground arith)
        ]
      ]
    ]
  ]

  -- A query returns what the first answering source answers: a hit of the source's own search, or
  -- an entry that passes the same confirmation as in a title search.
  pub search_chain_sound :
      (c : Chain Entry) (query : Bytes) (entry : Entry)
      → search_chain lower title c query ≡ some entry
      → (i : ℕ) × (src : Source Entry) × (get_elem? c.sources i ≡ some src)
        × Answers (threshold c) src query entry
        × ((j : ℕ) (s : Source Entry)
            → j < i
            → get_elem? c.sources j ≡ some s
            → search_one lower title (threshold c) s query ≡ none)
  unfolding search_chain
  search_chain_sound c query entry h =
      let (i, src, below, at, found, before) = first_some-IsFirst _ 0 c.sources entry h in
      (i, src, at, search_one-Answers (threshold c) src query entry found, before)
