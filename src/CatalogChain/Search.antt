-- ===== src/CatalogChain/Search.antt =====
-- `FindByTitle`, `Search` and `ResolveExternalID`: each source in turn, and a candidate confirmed
-- before it is accepted.
use loon_site.Prelude.{ℕ, Bool, false, Option, none, some, List, if◌then◌else◌, lookup, first_some}
use loon_site.Prelude.Int.{ℤ}
use loon_site.Prelude.Bytes.{Bytes, bytes_eq}
use loon_site.CatalogChain.{Source, Chain, Ratio, encode, reaches, threshold}
use loon_site.CatalogChain.Similar.{similar}

module _ {Entry : Type 0} where
  abbrev in_index : Source Entry → Bytes → Option (List (Bytes × ℤ)) → Option ℤ
  in_index src raw none = none
  in_index src raw (some idx) = lookup (src.normalize raw) idx

  ask_with : Source Entry → Bytes → Option (Bytes → Option ℤ) → Option ℤ
  ask_with src raw (some find) = find raw
  ask_with src raw none = in_index src raw src.title_index

  -- `askOne`: the source's own matcher when it has one, its index otherwise.
  unfoldable pub ask_one : Source Entry → Bytes → Option ℤ
  unfolding ask_with
  ask_one src raw = ask_with src raw src.finder

-- Titles are compared through `title`, an entry's title.
module _ {Entry : Type 0} (lower : ℕ → ℕ) (title : Entry → Bytes) where
  is_close : Ratio → Bytes → Option Entry → Bool
  is_close t raw none = false
  is_close t raw (some entry) = reaches (similar lower (title entry) raw) t

  -- `confirms`, at the chain's threshold.
  unfoldable pub confirms : Ratio → Source Entry → ℤ → Bytes → Bool
  unfolding is_close
  confirms t src local raw = is_close t raw (src.fetch local)

  -- One round of the loop of `FindByTitle`: the id that the source at `i` gives, if it is accepted.
  accept_local : Ratio → ℕ → Source Entry → Bytes → Option ℤ → Option ℤ
  accept_local t i src raw none = none
  accept_local t i src raw (some local) = elim (encode i local) [
    | none ↦ none
    | some enc ↦ if confirms t src local raw then some enc else none
  ]

  unfoldable pub accept : Ratio → ℕ → Source Entry → Bytes → Option ℤ
  unfolding accept_local
  accept t i src raw = accept_local t i src raw (ask_one src raw)

  unfoldable pub find_by_title : Chain Entry → Bytes → Option ℤ
  find_by_title c raw = first_some (λ i src. accept (threshold c) i src raw) 0 c.sources

  -- The path of `Search` for a source without a query of its own.
  confirmed_entry : Ratio → Source Entry → Bytes → Option ℤ → Option Entry
  confirmed_entry t src query none = none
  confirmed_entry t src query (some local) =
      if is_close t query (src.fetch local) then src.fetch local else none

  search_with : Ratio → Source Entry → Bytes → Option (Bytes → Option Entry) → Option Entry
  unfolding confirmed_entry
  search_with t src query (some run) = run query
  search_with t src query none = confirmed_entry t src query (ask_one src query)

  unfoldable pub search_one : Ratio → Source Entry → Bytes → Option Entry
  unfolding search_with is_close
  search_one t src query = search_with t src query src.searcher

  unfoldable pub search_chain : Chain Entry → Bytes → Option Entry
  search_chain c query = first_some (λ _ src. search_one (threshold c) src query) 0 c.sources

-- One round of the loop of `ResolveExternalID`.
unfoldable pub resolve_with : ℕ → Bytes → Bytes → Option (Bytes → Bytes → Option ℤ) → Option ℤ
resolve_with i namespace value none = none
resolve_with i namespace value (some resolve) = elim (resolve namespace value) [
  | none ↦ none
  | some local ↦ encode i local
]

unfoldable pub resolve_external_id : {Entry : Type 0} → Chain Entry → Bytes → Bytes → Option ℤ
resolve_external_id c namespace value =
    first_some (λ i src. resolve_with i namespace value src.resolver) 0 c.sources
