-- ===== src/Locks/Tests.antt =====
-- The lock theorem with a key that is a value and its time of expiry.
use node_pilot.Common.{
  ℕ, ◌+◌, ◌≡◌, refl, true, false, Option, none, some, List, [], ◌∷◌, all, not, ltb, if◌then◌else◌,
  arith, Bool,
}
use node_pilot.Locks.Redis.{Redis, acquire}
use node_pilot.Locks.Exclusion.{IsRedis, Try, takes, gives_back, prolongs, attempts, lock_excludes}

abbrev Key : Type 0
Key = Option (ℕ × ℕ)

abbrev live : ℕ → Key → Option ℕ
live now none = none
live now (some (token, expiry)) = if ltb now expiry then some token else none

abbrev set_if_absent : ℕ → ℕ → ℕ → Key → Bool × Key
set_if_absent now token ttl none = (true, some (token, now + ttl))
set_if_absent now token ttl (some (t, expiry)) =
    if ltb now expiry then (false, some (t, expiry)) else (true, some (token, now + ttl))

abbrev prolonged : ℕ → ℕ → Key → Key
prolonged now ttl none = none
prolonged now ttl (some (t, expiry)) = some (t, now + ttl)

abbrev one_key : Redis
one_key = record {
  Db = Key;
  get = live;
  set_nx_px = set_if_absent;
  del = λ _. none;
  pexpire = prolonged;
}

set-done_of :
    (now token ttl : ℕ) (db : Key)
    → (set_if_absent now token ttl db).0 ≡ true
    → (set_if_absent now token ttl db).1 ≡ some (token, now + ttl)
set-done_of now token ttl none h = refl
set-done_of now token ttl (some (t, expiry)) h = ground arith

one_key-IsRedis : IsRedis one_key
one_key-IsRedis = record {
  entry = λ db. db;
  get-live = λ now token expiry db e. ground arith;
  set-taken = λ now token ttl t expiry db e l. ground arith;
  set-done = set-done_of;
}

abbrev others : List (Try one_key)
others = takes 2 1000 5000 ∷ gives_back 2 2000 ∷ prolongs 3 3000 9000 ∷ []

abbrev taken : Key
taken = (acquire one_key 1 60000 (0 ∷ []) none).1

lock_excludes_example :
    (all not (attempts one_key others taken).0 ≡ true) × ((attempts one_key others taken).1 ≡ taken)
unfolding acquire
lock_excludes_example =
    lock_excludes one_key one_key-IsRedis 1 60000 0 none others refl (
      (ground arith, omega arith),
      ((ground arith, omega arith), ((ground arith, omega arith), tt)),
    )
