-- ===== src/CatalogChain/Tests.antt =====
-- Tests of the chain's model, and its theorems at concrete inputs.
use loon_site.Prelude.{
  ℕ, ◌+◌, ◌*◌, ◌≤◌, ◌<◌, ◌≡◌, ◌⊎◌, refl, Bool, true, false, Option, none, some, List, [], ◌∷◌,
  length, get_elem?, ltb, leb, ◌&&◌, if◌then◌else◌, map, lookup, All, arith, inl, inr, ◌==◌, nat_eq,
}
use loon_site.Prelude.Int.{ℤ, pos, negsuc}
use loon_site.Prelude.Bytes.{Bytes, codes, bytes_eq}
use loon_site.CatalogChain.{
  Source, Chain, Ratio, id_stride, encode, decode, threshold, min_similarity,
}
use loon_site.CatalogChain.Index.{title_index, fetch, ComesFrom, fetch-title_index}
use loon_site.CatalogChain.Similar.{similar, tokens}
use loon_site.CatalogChain.Search.{accept, find_by_title, search_one, search_chain}
use loon_site.CatalogChain.Confirm.{IsConfirmed, find_by_title_sound}

-- `unicode.ToLower` on ASCII.
abbrev lower : ℕ → ℕ
lower c = if leb b'A' c && leb c b'Z' then c + 32 else c

abbrev heat : Bytes
heat = codes "heat"

abbrev release : Bytes
release = codes "Heat 1995 x264"

abbrev title_of : ℤ → Option Bytes
title_of (pos id) = if id == 5 then some heat else none
title_of (negsuc id) = none

-- An entry is its title.
abbrev tmdb : Source Bytes
tmdb = record {
  domain_key = codes "movie";
  normalize = map lower;
  title_index = some ((heat, pos 5) ∷ []);
  fetch = title_of;
  finder = some (λ raw. some (pos 5));
  searcher = none;
  resolver = none;
}

-- A source that answers nothing.
abbrev silent : Source Bytes
silent = record {
  domain_key = codes "movie";
  normalize = map lower;
  title_index = none;
  fetch = λ id. none;
  finder = none;
  searcher = none;
  resolver = none;
}

abbrev movies : Chain Bytes
movies = record {
  domain = codes "movie";
  sources = silent ∷ tmdb ∷ [];
  names = codes "off" ∷ codes "tmdb" ∷ [];
  min_sim = record { num = 0; den = 1 };
}

abbrev named : List (Bytes × Option (Source Bytes))
named = (codes "off", some silent) ∷ (codes "tmdb", some tmdb) ∷ (codes "gone", none) ∷ []

abbrev order : List Bytes
order = codes "off" ∷ codes "gone" ∷ codes "tmdb" ∷ []

-- What the second source's id 5 is in the chain.
abbrev heat_id : ℤ
heat_id = pos 1_000_000_000_005

fetch-title_index_example : ComesFrom movies heat heat_id
unfolding lookup loon_site.Prelude.insert
fetch-title_index_example =
    fetch-title_index movies heat heat_id (tt, ((refl, tt), tt)) (omega arith)
      (unfold title_index encode in refl)

-- One word of three.
score_release : similar lower heat release ≡ record { num = 1; den = 1 }
unfolding similar loon_site.CatalogChain.Similar.score tokens
    loon_site.CatalogChain.Similar.hits_from loon_site.CatalogChain.Similar.shorter
    loon_site.CatalogChain.Similar.uniq
score_release = refl

find_by_title_sound_example :
    (i : ℕ) × (src : Source Bytes) × (local : ℤ) × (entry : Bytes) × (get_elem? movies.sources i
      ≡ some src)
    × IsConfirmed lower (λ e. e) (threshold movies) src release local entry
    × (fetch movies heat_id ≡ some entry)
    × ((j : ℕ) (s : Source Bytes)
        → j < i
        → get_elem? movies.sources j ≡ some s
        → accept lower (λ e. e) (threshold movies) j s release ≡ none)
unfolding loon_site.Prelude.first_some accept loon_site.CatalogChain.Search.ask_one encode
    loon_site.CatalogChain.Search.confirms loon_site.CatalogChain.reaches threshold similar
    loon_site.CatalogChain.Similar.score tokens loon_site.CatalogChain.Similar.shorter
    loon_site.CatalogChain.Similar.uniq loon_site.CatalogChain.Similar.hits_from
find_by_title_sound_example =
    find_by_title_sound lower (λ e. e) movies release heat_id (omega arith)
      (unfold find_by_title in refl)
