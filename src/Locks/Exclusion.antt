-- ===== src/Locks/Exclusion.antt =====
-- Who holds a lock while others try to take it.
use node_pilot.Common.{
  ℕ, ◌+◌, ◌<◌, ◌≡◌, refl, ◌≢◌, Bool, true, false, Option, none, some, List, [], ◌∷◌, All, all, not,
  ltb, if◌then◌else◌, arith, Bool-cases, inl, inr,
}
use node_pilot.Locks.Redis.{Redis, acquire_once, acquire, release, extend}

-- What Redis documents of these commands. `entry` is the value of the key with its time of
-- expiry, from which on the key counts as absent.
pub record IsRedis (redis : Redis) : Type 0 where
  pub entry : redis.Db → Option (ℕ × ℕ)
  pub get-live :
      (now token expiry : ℕ) (db : redis.Db)
      → entry db ≡ some (token, expiry)
      → redis.get now db ≡ (if ltb now expiry then some token else none)
  pub set-taken :
      (now token ttl t expiry : ℕ) (db : redis.Db)
      → entry db ≡ some (t, expiry)
      → now < expiry
      → redis.set_nx_px now token ttl db ≡ (false, db)
  pub set-done :
      (now token ttl : ℕ) (db : redis.Db)
      → (redis.set_nx_px now token ttl db).0 ≡ true
      → entry (redis.set_nx_px now token ttl db).1 ≡ some (token, now + ttl)

module _ (redis : Redis) where
  -- What another client does, with its token, the time, and the lifetime that it asks for.
  pub data Try : Type 0 where
    takes : ℕ → ℕ → ℕ → Try
    gives_back : ℕ → ℕ → Try
    prolongs : ℕ → ℕ → ℕ → Try

  abbrev pub token_of : Try → ℕ
  token_of (takes token _ _) = token
  token_of (gives_back token _) = token
  token_of (prolongs token _ _) = token

  abbrev pub time_of : Try → ℕ
  time_of (takes _ now _) = now
  time_of (gives_back _ now) = now
  time_of (prolongs _ now _) = now

  unfoldable pub attempt : Try → redis.Db → Bool × redis.Db
  unfolding acquire_once release extend
  attempt (takes token now ttl) db = acquire_once redis token ttl now db
  attempt (gives_back token now) db = release redis token now db
  attempt (prolongs token now ttl) db = extend redis token ttl now db

  -- The answers that the clients get, in order, and the database in the end.
  unfoldable pub attempts : List Try → redis.Db → List Bool × redis.Db
  unfolding attempt
  attempts [] db = ([], db)
  attempts (t ∷ ts) db =
      let (answer, db') = attempt t db in
      let (answers, db'') = attempts ts db' in (answer ∷ answers, db'')

  -- A try of somebody else, before the lock expires.
  abbrev pub IsForeign : ℕ → ℕ → Try → Type 0
  IsForeign holder expiry t = (token_of t ≢ holder) × (time_of t < expiry)

  foreign_fails :
      (laws : IsRedis redis) (holder expiry : ℕ) (t : Try) (db : redis.Db)
      → laws.entry db ≡ some (holder, expiry)
      → IsForeign holder expiry t
      → attempt t db ≡ (false, db)
  unfolding attempt
  foreign_fails laws holder expiry (takes token now ttl) db e f =
      laws.set-taken now token ttl holder expiry db e f.1
  foreign_fails laws holder expiry (gives_back token now) db e f =
      ground (arith, laws.get-live now holder expiry db e, f.0, f.1)
  foreign_fails laws holder expiry (prolongs token now ttl) db e f =
      ground (arith, laws.get-live now holder expiry db e, f.0, f.1)

  none_succeeds :
      (laws : IsRedis redis) (holder expiry : ℕ) (ts : List Try) (db : redis.Db)
      → laws.entry db ≡ some (holder, expiry)
      → All (IsForeign holder expiry) ts
      → (all not (attempts ts db).0 ≡ true) × ((attempts ts db).1 ≡ db)
  unfolding attempts
  none_succeeds laws holder expiry [] db e h = (refl, refl)
  none_succeeds laws holder expiry (t ∷ ts) db e h =
      rw (foreign_fails laws holder expiry t db e h.0)
        (none_succeeds laws holder expiry ts db e h.1)

  acquired-entry :
      (laws : IsRedis redis) (holder ttl now : ℕ) (db : redis.Db)
      → (acquire redis holder ttl (now ∷ []) db).0 ≡ true
      → laws.entry (acquire redis holder ttl (now ∷ []) db).1 ≡ some (holder, now + ttl)
  unfolding acquire acquire_once
  acquired-entry laws holder ttl now db got =
      elim (Bool-cases (redis.set_nx_px now holder ttl db).0) [
        | inl done ↦ rw done (laws.set-done now holder ttl db done)
        | inr busy ↦ ground (arith, busy, got)
      ]

  -- Once a client acquired the lock, then until its lifetime is over every attempt of clients with
  -- other tokens to take it, give it back or prolong it fails and changes nothing, in any number
  -- and order.
  pub lock_excludes :
      (laws : IsRedis redis) (holder ttl now : ℕ) (db : redis.Db) (ts : List Try)
      → (acquire redis holder ttl (now ∷ []) db).0 ≡ true
      → All (IsForeign holder (now + ttl)) ts
      → let taken = (acquire redis holder ttl (now ∷ []) db).1 in
        (all not (attempts ts taken).0 ≡ true) × ((attempts ts taken).1 ≡ taken)
  lock_excludes laws holder ttl now db ts got h =
      none_succeeds laws holder (now + ttl) ts (acquire redis holder ttl (now ∷ []) db).1
        (acquired-entry laws holder ttl now db got) h
