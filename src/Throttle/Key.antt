-- ===== src/Throttle/Key.antt =====
-- `throttleKey`: whose bucket a request spends from.
use loon_site.Prelude.{◌≡◌, ◌↔◌, ap, ℕ, suc, Option, none, some, ◌∷◌, arith}
use loon_site.Prelude.Int.{ℤ, pos, positive?}
use loon_site.Prelude.Bytes.{Bytes}
use loon_site.Prelude.Decimal.{format, format_injective}

-- What the session holds under "user_id": `c.Get` found no session, or the session no value, or a
-- value of type int64, int or another.
pub data SessionUser : Type 0 where
  no_session no_user : SessionUser
  int64 int : ℤ → SessionUser
  other_type : SessionUser

-- The id that the type switch accepts.
unfoldable pub member_id : SessionUser → Option ℕ
member_id no_session = none
member_id no_user = none
member_id (int64 id) = positive? id
member_id (int id) = positive? id
member_id other_type = none

key_for : Option ℕ → Bytes → Bytes
key_for (some id) ip = b'u' ∷ b':' ∷ format id
key_for none ip = b'i' ∷ b'p' ∷ b':' ∷ ip

unfoldable pub throttle_key : SessionUser → Bytes → Bytes
unfolding key_for
throttle_key user ip = key_for (member_id user) ip

-- Who is asking: a member, or an address.
pub data Caller : Type 0 where
  member : ℕ → Caller
  address : Bytes → Caller

pub caller : SessionUser → Bytes → Caller
caller no_session ip = address ip
caller no_user ip = address ip
caller other_type ip = address ip
caller (int64 (pos (suc n))) ip = member (suc n)
caller (int64 id) ip = address ip
caller (int (pos (suc n))) ip = member (suc n)
caller (int id) ip = address ip

caller_for : Option ℕ → Bytes → Caller
caller_for (some id) ip = member id
caller_for none ip = address ip

caller-member_id :
    (user : SessionUser) (ip : Bytes) → caller user ip ≡ caller_for (member_id user) ip
unfolding caller caller_for member_id
caller-member_id user ip = ground arith

key_for_iff :
    (u u' : Option ℕ) (ip ip' : Bytes)
    → (key_for u ip ≡ key_for u' ip') ↔ (caller_for u ip ≡ caller_for u' ip')
unfolding key_for caller_for
key_for_iff none none ip ip' = (λ e. cc, λ e. cc)
key_for_iff none (some n) ip ip' = (λ e. absurd (ground arith), λ e. cc)
key_for_iff (some n) none ip ip' = (λ e. absurd (ground arith), λ e. cc)
key_for_iff (some n) (some n') ip ip' =
    (λ e. let same : format n ≡ format n' = cc in ap member (format_injective n n' same), λ e. cc)

-- Two requests spend from one bucket exactly when the same member sent both, or when neither has a
-- member behind it and both came from one address.
pub throttle_key_iff :
    (user user' : SessionUser) (ip ip' : Bytes)
    → (throttle_key user ip ≡ throttle_key user' ip') ↔ (caller user ip ≡ caller user' ip')
unfolding throttle_key
throttle_key_iff user user' ip ip' =
    rw (caller-member_id user ip, caller-member_id user' ip')
      (key_for_iff (member_id user) (member_id user') ip ip')
