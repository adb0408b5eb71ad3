-- ===== src/CatalogChain/Similar.antt =====
-- `Similar`, `tokens` and `uniq`: how far two titles share their words. `unicode.ToLower` is the
-- parameter `lower`, on code points.
pub mod Sets
pub mod Laws
use loon_site.Prelude.{
  ℕ, suc, ◌+◌, ◌-◌, ◌*◌, ◌≤◌, ◌<◌, Bool, true, false, ◌&&◌, ◌||◌, not, List, [], ◌∷◌, ◌++◌, length,
  ltb, leb, ◌==◌, nat_eq, if◌then◌else◌, map,
}
use loon_site.Prelude.Bytes.{Bytes, bytes_eq}
use loon_site.CatalogChain.{Ratio}

abbrev pub contains : Bytes → List Bytes → Bool
contains t [] = false
contains t (u ∷ us) = if u == t then true else contains t us

abbrev pub is_alnum : ℕ → Bool
is_alnum r = (leb b'a' r && leb r b'z') || (leb b'0' r && leb r b'9')

-- A field that is not empty.
abbrev pub flush : Bytes → List Bytes
flush [] = []
flush (c ∷ cur) = (c ∷ cur) ∷ []

-- `strings.FieldsFunc`: the runs of characters that are no separators.
unfoldable pub fields_func : (ℕ → Bool) → Bytes → Bytes → List Bytes
fields_func sep cur [] = flush cur
fields_func sep cur (c ∷ s) =
    let closed = flush cur ++ fields_func sep [] s in
    let longer = fields_func sep (cur ++ c ∷ []) s in if sep c then closed else longer

abbrev drop_empty : List Bytes → List Bytes
drop_empty [] = []
drop_empty ([] ∷ ts) = drop_empty ts
drop_empty ((c ∷ t) ∷ ts) = (c ∷ t) ∷ drop_empty ts

unfoldable pub tokens : (ℕ → ℕ) → Bytes → List Bytes
unfolding fields_func
tokens lower s = drop_empty (fields_func (λ r. not (is_alnum r)) [] (map lower s))

unfoldable pub uniq_from : List Bytes → List Bytes → List Bytes
uniq_from seen [] = []
uniq_from seen (t ∷ ts) = elim (contains t seen) [
  | true ↦ uniq_from seen ts
  | false ↦ t ∷ uniq_from (t ∷ seen) ts
]

unfoldable pub uniq : List Bytes → List Bytes
unfolding uniq_from
uniq ts = uniq_from [] ts

-- The loop over `ta`: `set` holds the other title's tokens.
unfoldable pub hits_from : List Bytes → List Bytes → List Bytes → ℕ
hits_from set seen [] = 0
hits_from set seen (t ∷ ts) = elim (contains t seen) [
  | true ↦ hits_from set seen ts
  | false ↦ (if contains t set then 1 else 0) + hits_from set (t ∷ seen) ts
]

unfoldable pub shorter : ℕ → ℕ → ℕ
shorter m n = if ltb n m then n else m

-- `Similar` on the tokens.
unfoldable pub score : List Bytes → List Bytes → Ratio
score ta tb =
    if length ta == 0 || length tb == 0
    then record { num = 0; den = 1 }
    else record { num = hits_from tb [] ta; den = shorter (length (uniq ta)) (length (uniq tb)) }

unfoldable pub similar : (ℕ → ℕ) → Bytes → Bytes → Ratio
similar lower a b = score (tokens lower a) (tokens lower b)
