-- ===== src/Stream/Redis.antt =====
-- What the program calls of redis-py, as an interface over the server's state, within the time to live
-- of its keys. `lrange k n` is LRANGE k 0 (n - 1), so that at 0 it gives the whole list.
use realtime_fraud_detection.Common.{
  ℕ, ◌<◌, ◌≡◌, ◌≢◌, String, Option, some, List, ◌∷◌, take, str_eq, if◌then◌else◌,
}

pub record Redis (S : Type 0) : Type 0 where
  pub lpush : String → String → S → S
  -- LTRIM k 0 (n - 1)
  pub ltrim : String → ℕ → S → S
  pub expire : String → ℕ → S → S
  pub lrange : String → ℕ → S → List String
  -- SET with EX
  pub set : String → String → ℕ → S → S
  pub get : String → S → Option String

-- What the commands are documented to do to the lists and values of the keys.
pub record IsRedis {S : Type 0} (redis : Redis S) : Type 0 where
  pub lrange_lem :
      (k : String) (n : ℕ) (s : S) → 0 < n → redis.lrange k n s ≡ take n (redis.lrange k 0 s)
  pub lrange-lpush :
      (j k v : String) (s : S)
      → redis.lrange j 0 (redis.lpush k v s)
        ≡ (if str_eq k j then v ∷ redis.lrange j 0 s else redis.lrange j 0 s)
  pub lrange-ltrim :
      (j k : String) (n : ℕ) (s : S)
      → 0 < n
      → redis.lrange j 0 (redis.ltrim k n s)
        ≡ (if str_eq k j then take n (redis.lrange j 0 s) else redis.lrange j 0 s)
  pub lrange-expire :
      (j k : String) (t : ℕ) (s : S)
      → 0 < t
      → redis.lrange j 0 (redis.expire k t s) ≡ redis.lrange j 0 s
  -- SET replaces what is at its own key only
  pub lrange-set :
      (j k v : String) (t : ℕ) (s : S)
      → 0 < t
      → k ≢ j
      → redis.lrange j 0 (redis.set k v t s) ≡ redis.lrange j 0 s
  pub get-set :
      (j k v : String) (t : ℕ) (s : S)
      → 0 < t
      → redis.get j (redis.set k v t s) ≡ (if str_eq k j then some v else redis.get j s)
  -- the list commands reach no value at another key
  pub get-lpush : (j k v : String) (s : S) → k ≢ j → redis.get j (redis.lpush k v s) ≡ redis.get j s
  pub get-ltrim :
      (j k : String) (n : ℕ) (s : S) → k ≢ j → redis.get j (redis.ltrim k n s) ≡ redis.get j s
  pub get-expire :
      (j k : String) (t : ℕ) (s : S) → 0 < t → redis.get j (redis.expire k t s) ≡ redis.get j s
