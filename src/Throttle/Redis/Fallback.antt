-- ===== src/Throttle/Redis/Fallback.antt =====
-- The store over Redis when the network fails: the local table takes over.
use loon_site.Prelude.{◌≡◌, refl, false, List, [], ◌∷◌, arith, map, All}
use loon_site.Prelude.Bytes.{Bytes}
use loon_site.Throttle.{Limit, Answer, take, give}
use loon_site.Throttle.Calls.{Call, take_call, give_call, answers}
use loon_site.Throttle.Redis.{failed, Surroundings, RedisStore, note, redis_take, redis_give}

pub data StoreCall : Type 0 where
  take_with give_with : Surroundings → Bytes → StoreCall

unfoldable pub after_store_call : Limit → StoreCall → RedisStore → RedisStore
after_store_call l (take_with env key) s = (redis_take env key l s).0
after_store_call l (give_with env key) s = redis_give env key l s

unfoldable pub after_store_calls : Limit → List StoreCall → RedisStore → RedisStore
after_store_calls l [] s = s
after_store_calls l (c ∷ calls) s = after_store_calls l calls (after_store_call l c s)

unfoldable pub store_answers : Limit → List StoreCall → RedisStore → List Answer
store_answers l [] s = []
store_answers l (take_with env key ∷ calls) s =
    (redis_take env key l s).1 ∷ store_answers l calls (redis_take env key l s).0
store_answers l (give_with env key ∷ calls) s = store_answers l calls (redis_give env key l s)

-- The server cannot be reached.
abbrev pub env_of : StoreCall → Surroundings
env_of (take_with env key) = env
env_of (give_with env key) = env

abbrev pub IsCutOff : StoreCall → Type 0
IsCutOff c = (env_of c).net ≡ failed false

pub fallback_call : StoreCall → Call
fallback_call (take_with env key) = take_call env.now key
fallback_call (give_with env key) = give_call key

take_cut_off :
    (l : Limit) (env : Surroundings) (key : Bytes) (s : RedisStore)
    → env.net ≡ failed false
    → ((redis_take env key l s).1 ≡ (take env.now key l s.fallen).1)
      × ((redis_take env key l s).0.fallen ≡ (take env.now key l s.fallen).0)
      × ((redis_take env key l s).0.hashes ≡ s.hashes)
unfolding redis_take note
take_cut_off l env key s h = ground arith

give_cut_off :
    (l : Limit) (env : Surroundings) (key : Bytes) (s : RedisStore)
    → env.net ≡ failed false
    → ((redis_give env key l s).fallen ≡ give key l s.fallen)
      × ((redis_give env key l s).hashes ≡ s.hashes)
unfolding redis_give note
give_cut_off l env key s h = ground arith

-- While the server cannot be reached every `take` is answered as the local table answers it, and
-- the server's table is left alone.
pub store_answers_cut_off :
    (l : Limit) (calls : List StoreCall) (s : RedisStore)
    → All IsCutOff calls
    → (store_answers l calls s ≡ answers l (map fallback_call calls) s.fallen)
      × ((after_store_calls l calls s).hashes ≡ s.hashes)
unfolding store_answers answers fallback_call after_store_calls after_store_call
store_answers_cut_off l [] s h = (refl, refl)
store_answers_cut_off l (take_with env key ∷ calls) s (here, h) =
    let (answer, table, hashes) = take_cut_off l env key s here in
    let (rest, same) = store_answers_cut_off l calls (redis_take env key l s).0 h in
    (cc (answer, table, rest), cc (hashes, same))
store_answers_cut_off l (give_with env key ∷ calls) s (here, h) =
    let (table, hashes) = give_cut_off l env key s here in
    let (rest, same) = store_answers_cut_off l calls (redis_give env key l s) h in
    (cc (table, rest), cc (hashes, same))
