-- ===== src/Locks/Redis.antt =====
-- `RedisLock`, over the Redis commands that it uses, which are a parameter. One key; times and
-- lifetimes in milliseconds; a token is a number.
use node_pilot.Common.{ℕ, Bool, true, false, Option, none, some, List, [], ◌∷◌, if◌then◌else◌, ◌==◌}

-- The commands on one key, each at a time: `GET`, `SET NX PX`, `DEL`, `PEXPIRE`.
pub record Redis : Type 1 where
  pub Db : Type 0
  pub get : ℕ → Db → Option ℕ
  pub set_nx_px : ℕ → ℕ → ℕ → Db → Bool × Db
  pub del : Db → Db
  pub pexpire : ℕ → ℕ → Db → Db

module _ (redis : Redis) where
  -- One round of the loop of `acquire`.
  unfoldable pub acquire_once : ℕ → ℕ → ℕ → redis.Db → Bool × redis.Db
  acquire_once token ttl now db = redis.set_nx_px now token ttl db

  -- `acquire`: `times` are those of its rounds, which end with the deadline; without blocking
  -- there is one.
  unfoldable pub acquire : ℕ → ℕ → List ℕ → redis.Db → Bool × redis.Db
  unfolding acquire_once
  acquire token ttl [] db = (false, db)
  acquire token ttl (now ∷ times) db =
      let (acquired, db') = acquire_once token ttl now db in
      if acquired then (true, db') else acquire token ttl times db'

  abbrev pub owns : ℕ → Option ℕ → Bool
  owns token none = false
  owns token (some t) = t == token

  -- `_RELEASE_SCRIPT`, which `release` runs.
  unfoldable pub release : ℕ → ℕ → redis.Db → Bool × redis.Db
  release token now db = if owns token (redis.get now db) then (true, redis.del db) else (false, db)

  -- `_EXTEND_SCRIPT`, which `extend` runs.
  unfoldable pub extend : ℕ → ℕ → ℕ → redis.Db → Bool × redis.Db
  extend token ttl now db =
      if owns token (redis.get now db) then (true, redis.pexpire now ttl db) else (false, db)
