-- ===== src/Permissions/Model.antt =====
-- The rows that a decision reads, and Django's cache, which is a parameter. Times in seconds.
use node_pilot.Common.{ℕ, ◌+◌, ◌<◌, ◌≡◌, ◌⊎◌, Bool, Option, some, List, String}

pub record Role : Type 0 where
  pub name : String
  pub organization : Option ℕ
  -- The codenames of the role's permissions.
  pub permissions : List String

pub record RoleAssignment : Type 0 where
  pub user : ℕ
  pub organization : ℕ
  pub project : Option ℕ
  pub role : Role

-- `request.user`; an anonymous one is not authenticated.
pub record User : Type 0 where
  pub pk : ℕ
  pub is_authenticated : Bool
  pub is_superuser : Bool
  pub is_active : Bool

-- A credential of a user; of the secret there is its hash.
pub record ApiToken : Type 0 where
  pub user : User
  pub token_hash : String
  pub scopes : List String
  pub expires_at : Option ℕ
  pub last_used_at : Option ℕ
  pub revoked : Bool
  pub revoked_at : Option ℕ

-- The three parts of a cache key.
pub record Key : Type 0 where
  pub user : ℕ
  pub organization : ℕ
  pub project : Option ℕ

-- `cache.get` and `cache.set` of Django, at a time.
pub record Cache : Type 1 where
  pub Db : Type 0
  pub get : ℕ → Key → Db → Option (List String)
  pub set : ℕ → Key → List String → ℕ → Db → Db

-- What Django documents of a cache: `entry` is the value of a key with the time at which it
-- expires. A read gives the live value or nothing, since entries may also be culled; a write puts
-- its own entry and makes no other.
pub record IsCache (cache : Cache) : Type 0 where
  pub entry : Key → cache.Db → Option (List String × ℕ)
  pub get-live :
      (now : ℕ) (k : Key) (v : List String) (db : cache.Db)
      → cache.get now k db ≡ some v
      → (expiry : ℕ) × (entry k db ≡ some (v, expiry)) × (now < expiry)
  pub set-entries :
      (now : ℕ) (k : Key) (v : List String) (ttl : ℕ) (db : cache.Db) (j : Key)
      (e : List String × ℕ)
      → entry j (cache.set now k v ttl db) ≡ some e
      → ((j ≡ k) × (e ≡ (v, now + ttl))) ⊎ (entry j db ≡ some e)
