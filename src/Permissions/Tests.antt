-- ===== src/Permissions/Tests.antt =====
-- The theorems on permissions with a cache that is a function, and tests.
use node_pilot.Common.{
  ℕ, ◌+◌, ◌<◌, ◌≡◌, ◌≢◌, refl, ◌⊎◌, inl, inr, Bool, true, false, ◌&&◌, Option, none, some, List, [],
  ◌∷◌, String, ltb, if◌then◌else◌, ◌==◌, arith, Bool-cases,
}
use node_pilot.Common.Exec.{ok}
use node_pilot.Permissions.Model.{Role, RoleAssignment, User, ApiToken, Key, Cache, IsCache}
use node_pilot.Permissions.Policy.{has_permission}
use node_pilot.Permissions.History.{
  State, Event, waits, changes, asks, after, Answers, answer_recent,
}
use node_pilot.Permissions.Gate.{
  Obj, instance_of, attribute, end, plain, Request, View, reaches_object,
}
use node_pilot.Permissions.Credentials.{authenticate, revoke}
use node_pilot.Permissions.Granted.{Reaches, reached_granted}

abbrev same_project : Option ℕ → Option ℕ → Bool
same_project none none = true
same_project none (some p) = false
same_project (some q) none = false
same_project (some q) (some p) = q == p

abbrev same_key : Key → Key → Bool
same_key j k =
    j.user == k.user && j.organization == k.organization && same_project j.project k.project

abbrev Entries : Type 0
Entries = Key → Option (List String × ℕ)

abbrev live : ℕ → Option (List String × ℕ) → Option (List String)
live now none = none
live now (some (v, expiry)) = if ltb now expiry then some v else none

abbrev written : ℕ → Key → List String → ℕ → Entries → Entries
written now k v ttl db j = if same_key j k then some (v, now + ttl) else db j

abbrev local_memory : Cache
local_memory = record { Db = Entries; get = λ now k db. live now (db k); set = written }

same_project-eq : (q p : Option ℕ) → same_project q p ≡ true → q ≡ p
same_project-eq none none h = refl
same_project-eq none (some p) h = ground arith
same_project-eq (some q) none h = ground arith
same_project-eq (some q) (some p) h = ground arith

same_key-eq : (j k : Key) → same_key j k ≡ true → j ≡ k
same_key-eq j k h = ground (arith, same_project-eq j.project k.project)

live-some :
    (now : ℕ) (v : List String) (e : Option (List String × ℕ))
    → live now e ≡ some v
    → (expiry : ℕ) × (e ≡ some (v, expiry)) × (now < expiry)
live-some now v none h = absurd (ground (arith, h))
live-some now v (some (w, expiry)) h = (expiry, ground (arith, h), ground (arith, h))

written-entries :
    (now : ℕ) (k : Key) (v : List String) (ttl : ℕ) (db : Entries) (j : Key) (e : List String × ℕ)
    → written now k v ttl db j ≡ some e
    → ((j ≡ k) × (e ≡ (v, now + ttl))) ⊎ (db j ≡ some e)
written-entries now k v ttl db j e h = elim (Bool-cases (same_key j k)) [
  | inl same ↦ inl (same_key-eq j k same, ground (arith, h, same))
  | inr other ↦ inr (ground (arith, h, other))
]

abbrev local_memory-IsCache : IsCache local_memory
local_memory-IsCache = record {
  entry = λ k db. db k;
  get-live = λ now k v db h. live-some now v (db k) h;
  set-entries = written-entries;
}

abbrev operator : Role
operator = record {
  name = "Operator";
  organization = none;
  permissions = "vm.view" ∷ "vm.start" ∷ [];
}

abbrev hired : RoleAssignment
hired = record { user = 7; organization = 1; project = none; role = operator }

abbrev worker : User
worker = record { pk = 7; is_authenticated = true; is_superuser = false; is_active = true }

abbrev fresh : State local_memory
fresh = record { now = 0; rows = hired ∷ []; db = λ _. none }

-- The last event first: the user asks, is dismissed, and 10 seconds pass.
abbrev dismissal : List (Event local_memory)
dismissal = waits 10 ∷ changes [] ∷ asks (some worker) (some 1) "vm.start" none ∷ []

abbrev dismissed : State local_memory
dismissed = after local_memory dismissal fresh

answer_recent_example :
    Answers local_memory local_memory-IsCache fresh dismissal
      (some worker)
      (some 1)
      "vm.start"
      none
      (has_permission local_memory dismissed.now dismissed.rows
        (some worker)
        (some 1)
        "vm.start"
        none
        dismissed.db).0
answer_recent_example =
    answer_recent local_memory local_memory-IsCache fresh (λ k. refl) dismissal (some worker)
      (some 1) "vm.start" none

-- The dismissed user may still start machines, from the cache; 30 seconds later no longer.
still_allowed :
    (has_permission local_memory dismissed.now dismissed.rows
      (some worker)
      (some 1)
      "vm.start"
      none
      dismissed.db).0
    ≡ true
unfolding has_permission after
still_allowed = refl

no_longer_allowed :
    (has_permission local_memory 30 [] (some worker) (some 1) "vm.start" none dismissed.db).0
    ≡ false
unfolding has_permission after
no_longer_allowed = refl

abbrev pool_view : View
pool_view = record {
  action = "start";
  detail = true;
  permission_map = ("list", "vm.view") ∷ ("start", "vm.start") ∷ [];
  required_permission = none;
  organization_field_path = "vm" ∷ "organization" ∷ [];
}

abbrev backup_of : ℕ → Obj
backup_of org =
    instance_of 3
      (attribute "vm" (instance_of 5 (attribute "organization" (instance_of org end) end)) end)

abbrev scoped : ApiToken
scoped = record {
  user = worker;
  token_hash = "h";
  scopes = "vm.start" ∷ [];
  expires_at = some 1000;
  last_used_at = none;
  revoked = false;
  revoked_at = none;
}

abbrev start_request : Request
start_request = record { user = some worker; api_token = some scoped; target = some 1 }

reached_granted_example :
    Reaches local_memory local_memory-IsCache fresh [] start_request pool_view (backup_of 1)
unfolding reaches_object after
reached_granted_example =
    reached_granted local_memory local_memory-IsCache fresh [] (λ k. refl) start_request pool_view
      (backup_of 1) refl

-- Naming organization 1 in the request does not open an object of organization 2.
other_tenant_refused :
    (reaches_object local_memory 0 (hired ∷ []) start_request pool_view (backup_of 2) (λ _. none)).0
    ≡ ok false
unfolding reaches_object
other_tenant_refused = refl

-- A view whose path leads to a number raises for everyone but superusers.
abbrev id_view : View
id_view = record pool_view { organization_field_path = "id" ∷ [] }

id_path_raises :
    (reaches_object local_memory 0
      (hired ∷ [])
      start_request
      id_view
      (instance_of 1 (attribute "id" (plain 1) end))
      (λ _. none)).0
    ≢ ok true
unfolding reaches_object
id_path_raises = λ h. ground (arith, h)

token_accepted :
    (authenticate (λ raw. raw) 999 ("Token" ∷ "h" ∷ []) (scoped ∷ [])).0 ≡ ok (some scoped)
unfolding authenticate
token_accepted = refl

revoked_token_refused :
    (authenticate (λ raw. raw) 999 ("Token" ∷ "h" ∷ []) (revoke 5 scoped ∷ [])).1
    ≡ revoke 5 scoped ∷ []
unfolding authenticate revoke
revoked_token_refused = refl
