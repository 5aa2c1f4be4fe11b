-- ===== src/Permissions/Granted.antt =====
-- Which requests the gate lets through to an object.
use node_pilot.Common.{
  ℕ, ◌≡◌, refl, sym, ◌∙◌, ◌⊎◌, inl, inr, Bool, true, false, Option, none, some, List, String,
  str_eq, if◌then◌else◌, Bool-cases, Option-cases, arith,
}
use node_pilot.Common.Exec.{ok}
use node_pilot.Permissions.Model.{RoleAssignment, User, Key, Cache, IsCache}
use node_pilot.Permissions.Policy.{has_permission}
use node_pilot.Permissions.History.{
  State, Event, after, IsBacked, Answers, has_permission-Answers, after-IsBacked,
}
use node_pilot.Permissions.Gate.{
  Obj, Attributes, instance_of, plain, Request, View, resolve_codename, token_permits, walk,
  is_authenticated, is_superuser, policy_on, request_permission, object_permission, reaches_object,
}

module _ (cache : Cache) (laws : IsCache cache) (start : State cache)
    (es : List (Event cache)) where
  -- A superuser, or a user to whom rows of the last 30 seconds grant the codename in the
  -- organization to which the object belongs.
  abbrev pub Granted : Option User → Option Obj → String → Type 0
  Granted user owner codename =
      (is_superuser user ≡ true)
      ⊎ ((pk : ℕ) × (attributes : Attributes) × (owner ≡ some (instance_of pk attributes))
          × Answers cache laws start es user (some pk) codename none true)

  abbrev clock : ℕ
  clock = (after cache es start).now

  abbrev table : List RoleAssignment
  table = (after cache es start).rows

  ownerless_super :
      (user : Option User) (codename : String) (db : cache.Db)
      → (has_permission cache clock table user none codename none db).0 ≡ true
      → is_superuser user ≡ true
  unfolding has_permission
  ownerless_super none codename db h = ground arith
  ownerless_super (some user) codename db h = ground arith

  plain_super :
      (user : Option User) (n : ℕ) (codename : String) (db : cache.Db)
      → (policy_on cache clock table user (some (plain n)) codename db).0 ≡ ok true
      → is_superuser user ≡ true
  unfolding policy_on
  plain_super none n codename db h = ground arith
  plain_super (some user) n codename db h = ground arith

  policy_on-Granted :
      (user : Option User) (owner : Option Obj) (codename : String) (db : cache.Db)
      → IsBacked cache laws start es db
      → (policy_on cache clock table user owner codename db).0 ≡ ok true
      → Granted user owner codename
  unfolding policy_on
  policy_on-Granted user none codename db backed h =
      inl (ownerless_super user codename db (ground (arith, h)))
  policy_on-Granted user (some (plain n)) codename db backed h =
      inl (plain_super user n codename db h)
  policy_on-Granted user (some (instance_of pk attributes)) codename db backed h =
      let allowed : (has_permission cache clock table user (some pk) codename none db).0 ≡ true =
        ground (arith, h) in
      let (since, before, split, recent, answer) =
        (has_permission-Answers cache laws start es user (some pk) codename none db backed).0 in
      inr (pk, attributes, refl, (since, before, split, recent, sym allowed ∙ answer))

  deferred :
      (detail listing : Bool) (request : Request) (codename : String) (db : cache.Db)
      → IsBacked cache laws start es db
      → IsBacked cache laws start es
          (if detail
            then (true, db)
            else if listing
            then (true, db)
            else has_permission cache clock table request.user request.target codename none db).1
  deferred true listing request codename db backed = backed
  deferred false true request codename db backed = backed
  deferred false false request codename db backed =
      (has_permission-Answers cache laws start es request.user request.target codename none db
        backed).1

  request_permission-IsBacked :
      (request : Request) (view : View) (db : cache.Db)
      → IsBacked cache laws start es db
      → IsBacked cache laws start es (request_permission cache clock table request view db).1
  unfolding request_permission
  request_permission-IsBacked request view db backed =
      elim (Bool-cases (is_authenticated request.user)) [
        | inr anonymous ↦ rw anonymous backed
        | inl known ↦ elim (Option-cases (resolve_codename view)) [
          | inl undeclared ↦ rw (known, undeclared) backed
          | inr (codename, declared) ↦
              elim (Bool-cases (token_permits request.api_token codename)) [
                | inr forbids ↦ rw (known, declared, forbids) backed
                | inl permits ↦
                    rw (known, declared, permits)
                      (deferred view.detail (str_eq view.action "list") request codename db backed)
              ]
        ]
      ]

  -- What lets a request through to an object.
  abbrev pub Reaches : Request → View → Obj → Type 0
  Reaches request view obj =
      (codename : String) × (resolve_codename view ≡ some codename)
      × (token_permits request.api_token codename ≡ true)
      × Granted request.user (walk view.organization_field_path obj) codename

  object_permission-Reaches :
      (request : Request) (view : View) (obj : Obj) (db : cache.Db)
      → IsBacked cache laws start es db
      → (object_permission cache clock table request view obj db).0 ≡ ok true
      → Reaches request view obj
  unfolding object_permission
  object_permission-Reaches request view obj db backed h =
      elim (Option-cases (resolve_codename view)) [
        | inl undeclared ↦ absurd (ground (arith, h, undeclared))
        | inr (codename, declared) ↦ elim (Bool-cases (token_permits request.api_token codename)) [
          | inl permits ↦ (
            codename,
            declared,
            permits,
            policy_on-Granted request.user (walk view.organization_field_path obj) codename db
                backed (ground (arith, h, declared, permits)),
          )
          | inr forbids ↦ absurd (ground (arith, h, declared, forbids))
        ]
      ]

  -- A request that the gate lets through to an object, after any history: the view declares a
  -- codename for its action, the API token, if there is one, carries it, and either the user is a
  -- superuser, or the organization that the object's own path leads to is one where rows that
  -- were in force less than 30 seconds ago grant the user that codename. The organization that
  -- the request itself names does not matter.
  pub reached_granted :
      ((k : Key) → laws.entry k start.db ≡ none)
      → (request : Request) (view : View) (obj : Obj)
      → (reaches_object cache clock table request view obj (after cache es start).db).0 ≡ ok true
      → Reaches request view obj
  unfolding reaches_object
  reached_granted empty request view obj h =
      let db = (after cache es start).db in
      elim (Bool-cases (request_permission cache clock table request view db).0) [
        | inl first ↦
            object_permission-Reaches request view obj
              (request_permission cache clock table request view db).1
              (request_permission-IsBacked request view db
                (after-IsBacked cache laws start empty es))
              (ground (arith, h, first))
        | inr refused ↦ absurd (ground (arith, h, refused))
      ]
