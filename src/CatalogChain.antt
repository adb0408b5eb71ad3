-- ===== src/CatalogChain.antt =====
-- internal/catalogchain/chain.go: several metadata sources for one domain, tried in order. The
-- sources and their entries are the framework's (loon/catalog), so they are parameters: a record of
-- what the chain calls, where an error is `none` and a capability that a source may lack is an
-- option. Texts are lists of code points, and a Go map is an association list.
pub mod Ids
pub mod Similar
pub mod Index
pub mod Search
pub mod Confirm
pub mod Build
mod Tests
use loon_site.Prelude.{
  ℕ, ◌+◌, ◌-◌, ◌*◌, ◌/◌, ◌%◌, ◌^◌, ◌≤◌, ◌<◌, suc, Bool, true, false, ◌&&◌, ◌||◌, not, Option, none,
  some, List, [], ◌∷◌, ◌++◌, length, get_elem?, ltb, leb, ◌==◌, nat_eq, if◌then◌else◌, lookup,
  insert, map,
}
use loon_site.Prelude.Int.{ℤ, pos, negsuc}
use loon_site.Prelude.Bytes.{Bytes, bytes_eq}

abbrev pub id_stride : ℕ
id_stride = 1_000_000_000_000

-- The int64 that a natural number wraps round to.
unfoldable pub to_int64 : ℕ → ℤ
to_int64 n = let w = n % 2 ^ 64 in if ltb w (2 ^ 63) then pos w else negsuc (2 ^ 64 - 1 - w)

unfoldable pub encode : ℕ → ℤ → Option ℤ
unfolding to_int64
encode source_index (negsuc n) = none
encode source_index (pos local) =
    if leb id_stride local then none else some (to_int64 (source_index * id_stride + local))

unfoldable pub decode : ℤ → ℕ → Option (ℕ × ℕ)
decode (negsuc id) n = none
decode (pos id) n = let i = id / id_stride in if leb n i then none else some (i, id % id_stride)

-- What the chain uses of a source.
pub record Source (Entry : Type 0) : Type 0 where
  pub domain_key : Bytes
  pub normalize : Bytes → Bytes
  pub title_index : Option (List (Bytes × ℤ))
  pub fetch : ℤ → Option Entry
  -- `catalog.TitleFinder`
  pub finder : Option (Bytes → Option ℤ)
  -- `searcher`: an error and a miss are both `none`, as the chain treats them alike.
  pub searcher : Option (Bytes → Option Entry)
  -- `catalog.CrossIDResolver`
  pub resolver : Option (Bytes → Bytes → Option ℤ)

-- A score or a threshold, as a fraction.
pub record Ratio : Type 0 where
  pub num : ℕ
  pub den : ℕ

-- `r >= t`
unfoldable pub reaches : Ratio → Ratio → Bool
reaches r t = leb (t.num * r.den) (r.num * t.den)

abbrev pub min_similarity : Ratio
min_similarity = record { num = 6; den = 10 }

pub record Chain (Entry : Type 0) : Type 0 where
  pub domain : Bytes
  pub sources : List (Source Entry)
  pub names : List Bytes
  -- `minSim`; a numerator of 0 is its zero value.
  pub min_sim : Ratio

unfoldable pub threshold : {Entry : Type 0} → Chain Entry → Ratio
threshold c = if ltb 0 c.min_sim.num then c.min_sim else min_similarity
