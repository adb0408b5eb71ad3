-- ===== src/CatalogChain/Similar/Sets.antt =====
-- Lists of tokens as sets: what `uniq` keeps, and counting the tokens that two lists share.
use loon_site.Prelude.{
  ◌+◌, ◌≤◌, ◌≡◌, refl, sym, Bool, false, List, [], ◌∷◌, length, ◌==◌, count_if, if◌then◌else◌,
  arith, beq_refl,
}
use loon_site.Prelude.Bytes.{Bytes, bytes_eq, bytes_beq_iff}
use loon_site.CatalogChain.Similar.{contains, uniq_from, uniq, hits_from}

-- No token twice.
abbrev pub Once : List Bytes → Type 0
Once [] = Unit
Once (t ∷ ts) = (contains t ts ≡ false) × Once ts

pub contains-uniq_from :
    (t : Bytes) (seen ts : List Bytes)
    → contains t (uniq_from seen ts) ≡ (if contains t seen then false else contains t ts)
unfolding uniq_from
contains-uniq_from t seen [] = ground arith
contains-uniq_from t seen (u ∷ ts) =
    ground
      (arith, bytes_beq_iff u t, contains-uniq_from t seen ts, contains-uniq_from t (u ∷ seen) ts)

uniq_from-Once : (seen ts : List Bytes) → Once (uniq_from seen ts)
unfolding uniq_from
uniq_from-Once seen [] = tt
uniq_from-Once seen (t ∷ ts) = ground (
  arith,
  beq_refl t,
  uniq_from-Once seen ts,
  uniq_from-Once (t ∷ seen) ts,
  contains-uniq_from t (t ∷ seen) ts,
)

pub uniq-Once : (ts : List Bytes) → Once (uniq ts)
unfolding uniq
uniq-Once ts = uniq_from-Once [] ts

pub contains-uniq : (t : Bytes) (ts : List Bytes) → contains t (uniq ts) ≡ contains t ts
unfolding uniq
contains-uniq t ts = contains-uniq_from t [] ts

-- The loop over the first title's tokens counts each token once.
hits_from-count_if :
    (set seen ts : List Bytes)
    → hits_from set seen ts ≡ count_if (λ t. contains t set) (uniq_from seen ts)
unfolding hits_from uniq_from
hits_from-count_if set seen [] = refl
hits_from-count_if set seen (t ∷ ts) =
    ground (arith, hits_from-count_if set seen ts, hits_from-count_if set (t ∷ seen) ts)

pub hits-count_if :
    (set ts : List Bytes) → hits_from set [] ts ≡ count_if (λ t. contains t set) (uniq ts)
unfolding uniq
hits-count_if set ts = hits_from-count_if set [] ts

pub count_if-ext :
    (p q : Bytes → Bool) (ts : List Bytes)
    → ((t : Bytes) → p t ≡ q t)
    → count_if p ts ≡ count_if q ts
count_if-ext p q [] h = refl
count_if-ext p q (t ∷ ts) h = rw (h t, count_if-ext p q ts h) refl

pub count_if-le-length : (p : Bytes → Bool) (ts : List Bytes) → count_if p ts ≤ length ts
count_if-le-length p [] = omega arith
count_if-le-length p (t ∷ ts) = ground (arith, count_if-le-length p ts)

-- In a list without repetition one token counts once.
count_if-same :
    (t : Bytes) (ts : List Bytes)
    → Once ts
    → count_if (λ u. t == u) ts ≡ (if contains t ts then 1 else 0)
count_if-same t [] once = refl
count_if-same t (u ∷ ts) (new, once) =
    ground (arith, bytes_beq_iff t u, bytes_beq_iff u t, count_if-same t ts once)

-- Counting by one more token that is not among the others.
count_if-cons :
    (t : Bytes) (xs ys : List Bytes)
    → contains t xs ≡ false
    → count_if (λ u. contains u (t ∷ xs)) ys
      ≡ count_if (λ u. t == u) ys + count_if (λ u. contains u xs) ys
count_if-cons t xs [] new = omega arith
count_if-cons t xs (y ∷ ys) new = ground (arith, bytes_beq_iff t y, count_if-cons t xs ys new)

count_if_none : (ys : List Bytes) → count_if (λ t. contains t []) ys ≡ 0
count_if_none [] = refl
count_if_none (y ∷ ys) = omega (arith, count_if_none ys)

-- The tokens that two lists share are as many from either side.
pub count_if_comm :
    (xs ys : List Bytes)
    → Once xs
    → Once ys
    → count_if (λ t. contains t ys) xs ≡ count_if (λ t. contains t xs) ys
count_if_comm [] ys once once' = sym (count_if_none ys)
count_if_comm (x ∷ xs) ys (new, once) once' =
    omega
      (arith, count_if-cons x xs ys new, count_if-same x ys once', count_if_comm xs ys once once')
