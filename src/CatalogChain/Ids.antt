-- ===== src/CatalogChain/Ids.antt =====
-- The chain's ids: which source an id came from.
use loon_site.Prelude.{
  ℕ, ◌+◌, ◌*◌, ◌^◌, ◌≤◌, ◌<◌, ◌≡◌, refl, some, arith, leb, Bool-cases, inl, inr,
}
use loon_site.Prelude.Int.{ℤ, pos, negsuc}
use loon_site.CatalogChain.{id_stride, to_int64, encode, decode}

-- The largest number of sources whose ids all fit an int64.
abbrev pub max_sources : ℕ
max_sources = 9_223_372

to_int64_small : (n : ℕ) → n < 2 ^ 63 → to_int64 n ≡ pos n
unfolding to_int64
to_int64_small n h = ground arith

-- In a chain of at most 9,223,372 sources, an id that the chain hands out for one of them leads
-- back to that source and its own id, which is in range.
pub decode-encode :
    (i n : ℕ) (local id : ℤ)
    → i < n
    → n ≤ max_sources
    → encode i local ≡ some id
    → (k : ℕ) × (local ≡ pos k) × (k < id_stride) × (decode id n ≡ some (i, k))
unfolding encode decode
decode-encode i n (negsuc k) id h most e = absurd (cc)
decode-encode i n (pos k) id h most e = elim (Bool-cases (leb id_stride k)) [
  | inl large ↦ absurd (let e' = rw large at e in cc)
  | inr fits ↦
      let small = to_int64_small (i * id_stride + k) (ground arith) in
      let same : id ≡ pos (i * id_stride + k) = ground arith in
      (k, refl, ground arith, rw same (ground arith))
]

-- In a chain of at most 9,223,372 sources, two sources never share an id, and neither do two ids of
-- one source.
pub encode_injective :
    (i j n : ℕ) (a b id : ℤ)
    → i < n
    → j < n
    → n ≤ max_sources
    → encode i a ≡ some id
    → encode j b ≡ some id
    → (i ≡ j) × (a ≡ b)
encode_injective i j n a b id hi hj most e f =
    let (k, is_a, _, d) = decode-encode i n a id hi most e in
    let (k', is_b, _, d') = decode-encode j n b id hj most f in (ground arith, ground arith)
