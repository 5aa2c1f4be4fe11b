-- ===== src/Channels/Redis.antt =====
-- The Redis commands that the connections use, which are a parameter. Times in seconds.
use node_pilot.Common.{
  ℕ, ◌+◌, ◌≡◌, refl, true, false, Option, none, some, String, str_eq, str_append, ltb,
  if◌then◌else◌, arith, eq_iff, ◌≢◌, Bool-cases, inl, inr,
}
use text.Mathlib.TextLemmas.{append_cancel_left}

-- `GET`, `SET EX`, `EXPIRE`, `DEL`.
pub record Redis : Type 1 where
  pub Db : Type 0
  pub get : ℕ → String → Db → Option String
  pub set_ex : ℕ → String → String → ℕ → Db → Db
  pub expire : ℕ → String → ℕ → Db → Db
  pub del : String → Db → Db

abbrev pub live : ℕ → Option (String × ℕ) → Option String
live now none = none
live now (some (value, expiry)) = if ltb now expiry then some value else none

abbrev pub prolonged : ℕ → ℕ → Option (String × ℕ) → Option (String × ℕ)
prolonged now ttl none = none
prolonged now ttl (some (value, expiry)) = if ltb now expiry then some (value, now + ttl) else none

-- What Redis documents of them: `entry` is the value of a key with its time of expiry, from which
-- on the key is absent.
pub record IsRedis (redis : Redis) : Type 0 where
  pub entry : String → redis.Db → Option (String × ℕ)
  pub get-live : (now : ℕ) (k : String) (db : redis.Db) → redis.get now k db ≡ live now (entry k db)
  pub entry-set_ex :
      (now : ℕ) (k v : String) (ttl : ℕ) (db : redis.Db) (j : String)
      → entry j (redis.set_ex now k v ttl db)
        ≡ (if str_eq k j then some (v, now + ttl) else entry j db)
  pub entry-expire :
      (now : ℕ) (k : String) (ttl : ℕ) (db : redis.Db) (j : String)
      → entry j (redis.expire now k ttl db)
        ≡ (if str_eq k j then prolonged now ttl (entry k db) else entry j db)
  pub entry-del :
      (k : String) (db : redis.Db) (j : String)
      → entry j (redis.del k db) ≡ (if str_eq k j then none else entry j db)

pub str_eq_self : (k : String) → str_eq k k ≡ true
str_eq_self k = (eq_iff k k).1 refl

pub str_eq-other : (k j : String) → k ≢ j → str_eq k j ≡ false
str_eq-other k j other = elim (Bool-cases (str_eq k j)) [
  | inl same ↦ absurd (other ((eq_iff k j).0 same))
  | inr differs ↦ differs
]

-- Keys with one prefix differ as what follows it.
pub prefixed-ne : (prefix a b : String) → a ≢ b → str_append prefix a ≢ str_append prefix b
prefixed-ne prefix a b other same = other (append_cancel_left prefix a b same)

pub str_eq-false→ne : (k j : String) → str_eq k j ≡ false → k ≢ j
str_eq-false→ne k j differs same = ground (arith, differs, (eq_iff k j).1 same)
