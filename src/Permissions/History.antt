-- ===== src/Permissions/History.antt =====
-- The policy engine through any history of role changes, waiting and questions, against the
-- engine that has no cache.
use node_pilot.Common.{
  ℕ, ◌+◌, ◌<◌, ◌≡◌, refl, sym, ap, ◌∙◌, Bool, true, false, ◌&&◌, not, Option, none, some, List, [],
  ◌∷◌, ◌++◌, String, any, filter_by, if◌then◌else◌, arith, Option-cases, Bool-cases, inl, inr,
  str_eq,
}
use node_pilot.Permissions.Model.{RoleAssignment, User, Key, Cache, IsCache}
use node_pilot.Permissions.Policy.{
  cache_key, codenames_of, codenames_for, contains, has_permission, selects, collect,
}

-- An assignment of these rows selected by the key gives the codename.
abbrev pub grants : List RoleAssignment → Key → String → Bool
grants rows k codename = any (λ a. selects k a && contains codename a.role.permissions) rows

abbrev pub granted : List RoleAssignment → User → Option ℕ → String → Option ℕ → Bool
granted rows user none codename project = false
granted rows user (some org) codename project = grants rows (cache_key user.pk org project) codename

-- The decision that rows give, with no cache.
abbrev pub permitted : List RoleAssignment → Option User → Option ℕ → String → Option ℕ → Bool
permitted rows none organization codename project = false
permitted rows (some user) organization codename project =
    if not user.is_authenticated
    then false
    else if user.is_superuser
    then true
    else granted rows user organization codename project

any-append :
    (p : String → Bool) (xs ys : List String)
    → any p (xs ++ ys) ≡ (if any p xs then true else any p ys)
any-append p [] ys = refl
any-append p (x ∷ xs) ys = ground (arith, any-append p xs ys)

pub contains-codenames_of :
    (rows : List RoleAssignment) (k : Key) (codename : String)
    → contains codename (codenames_of rows k) ≡ grants rows k codename
unfolding codenames_of
contains-codenames_of [] k codename = refl
contains-codenames_of (a ∷ rows) k codename = elim (Bool-cases (selects k a)) [
  | inl p ↦ rw p (
      any-append (str_eq codename) a.role.permissions (collect (filter_by (selects k) rows))
      ∙ ground (arith, contains-codenames_of rows k codename))
  | inr p ↦ rw p (contains-codenames_of rows k codename)
]

module _ (cache : Cache) where
  pub record State : Type 0 where
    pub now : ℕ
    pub rows : List RoleAssignment
    pub db : cache.Db

  -- Time passes; an administrator changes roles and assignments to any others; a request asks.
  pub data Event : Type 0 where
    waits : ℕ → Event
    changes : List RoleAssignment → Event
    asks : Option User → Option ℕ → String → Option ℕ → Event

  unfoldable pub step : State → Event → State
  step s (waits d) = record s { now = s.now + d }
  step s (changes rows) = record s { rows = rows }
  step s (asks user organization codename project) = record s {
    db = (has_permission cache s.now s.rows user organization codename project s.db).1;
  }

  -- The state after a history, the last event first.
  unfoldable pub after : List Event → State → State
  unfolding step
  after [] s = s
  after (e ∷ es) s = step (after es s) e

module _ (cache : Cache) (laws : IsCache cache) (start : State cache) where
  -- The codenames of a key are those that the rows gave at some moment of the history, at most
  -- `cache_ttl_seconds` before the time of expiry.
  abbrev pub Backed : List (Event cache) → Key → List String → ℕ → Type 0
  Backed es k v expiry =
      (since : List (Event cache)) × (before : List (Event cache)) × (since ++ before ≡ es)
      × (v ≡ codenames_of (after cache before start).rows k)
      × (expiry ≡ (after cache before start).now + 30)

  -- Every entry of the cache is backed.
  abbrev pub IsBacked : List (Event cache) → cache.Db → Type 0
  IsBacked es db =
      (k : Key) (v : List String) (expiry : ℕ)
      → laws.entry k db ≡ some (v, expiry)
      → Backed es k v expiry

  Backed-later :
      (e : Event cache) (es : List (Event cache)) (k : Key) (v : List String) (expiry : ℕ)
      → Backed es k v expiry
      → Backed (e ∷ es) k v expiry
  Backed-later e es k v expiry (since, before, split, names, time) =
      (e ∷ since, before, ap (λ l. e ∷ l) split, names, time)

  -- An answer of the cache or of the rows, and what it leaves in the cache.
  abbrev pub Recent : List (Event cache) → Key → List String → Type 0
  Recent es k v = (expiry : ℕ) × ((after cache es start).now < expiry) × Backed es k v expiry

  module _ (es : List (Event cache)) where
    abbrev clock : ℕ
    clock = (after cache es start).now

    abbrev table : List RoleAssignment
    table = (after cache es start).rows

    IsBacked-set :
        (k : Key) (db : cache.Db)
        → IsBacked es db
        → IsBacked es (cache.set clock k (codenames_of table k) 30 db)
    IsBacked-set k db backed j v expiry e =
        elim (laws.set-entries clock k (codenames_of table k) 30 db j (v, expiry) e) [
          | inl new ↦ (
            [],
            es,
            refl,
            ap (λ p. p.0) new.1 ∙ ap (codenames_of table) (sym new.0),
            ap (λ p. p.1) new.1,
          )
          | inr old ↦ backed j v expiry old
        ]

    pub codenames_for-Recent :
        (user organization : ℕ) (project : Option ℕ) (db : cache.Db)
        → IsBacked es db
        → Recent es
            (cache_key user organization project)
            (codenames_for cache clock table user organization project db).0
          × IsBacked es (codenames_for cache clock table user organization project db).1
    unfolding codenames_for
    codenames_for-Recent user organization project db backed =
        let k = cache_key user organization project in
        elim (Option-cases (cache.get clock k db)) [
          | inl miss ↦
              rw (miss, codenames_for)
                ((clock + 30, omega arith, ([], es, refl, refl, refl)), IsBacked-set k db backed)
          | inr (v, hit) ↦
              let (expiry, e, live) = laws.get-live clock k v db hit in
              rw (hit, codenames_for) ((expiry, live, backed k v expiry e), backed)
        ]

    -- An answer is that of the rows at a moment of the history, at most 30 seconds ago.
    abbrev pub Answers : Option User → Option ℕ → String → Option ℕ → Bool → Type 0
    Answers user organization codename project answer =
        (since : List (Event cache)) × (before : List (Event cache)) × (since ++ before ≡ es)
        × (clock < (after cache before start).now + 30)
        × (answer ≡ permitted (after cache before start).rows user organization codename project)

    from_Recent :
        (u : User) (org : ℕ) (codename : String) (project : Option ℕ) (names : List String)
        → u.is_authenticated ≡ true
        → u.is_superuser ≡ false
        → Recent es (cache_key u.pk org project) names
        → Answers (some u) (some org) codename project (contains codename names)
    from_Recent u org codename project names auth plain (expiry, live, b) =
        let (since, before, split, same, time) = b in
        (
          since,
          before,
          split,
          omega arith,
          rw (auth, plain, same)
              (contains-codenames_of (after cache before start).rows (cache_key u.pk org project)
                codename),
        )

    has_permission-plain :
        (u : User) (org : ℕ) (codename : String) (project : Option ℕ) (db : cache.Db)
        → u.is_authenticated ≡ true
        → u.is_superuser ≡ false
        → has_permission cache clock table (some u) (some org) codename project db ≡ (
          contains codename (codenames_for cache clock table u.pk org project db).0,
          (codenames_for cache clock table u.pk org project db).1,
        )
    unfolding has_permission
    has_permission-plain u org codename project db auth plain = rw (auth, plain)

    plain_Answers :
        (u : User) (org : ℕ) (codename : String) (project : Option ℕ) (db : cache.Db)
        → u.is_authenticated ≡ true
        → u.is_superuser ≡ false
        → IsBacked es db
        → Answers
            (some u)
            (some org)
            codename
            project
            (has_permission cache clock table (some u) (some org) codename project db).0
          × IsBacked es (has_permission cache clock table (some u) (some org) codename project db).1
    plain_Answers u org codename project db auth plain backed =
        let (recent, backed') = codenames_for-Recent u.pk org project db backed in
        let names = (codenames_for cache clock table u.pk org project db).0 in
        rw (has_permission-plain u org codename project db auth plain)
          (from_Recent u org codename project names auth plain recent, backed')

    pub has_permission-Answers :
        (user : Option User) (organization : Option ℕ) (codename : String) (project : Option ℕ)
        (db : cache.Db)
        → IsBacked es db
        → Answers user organization codename project
            (has_permission cache clock table user organization codename project db).0
          × IsBacked es (has_permission cache clock table user organization codename project db).1
    unfolding has_permission
    has_permission-Answers none organization codename project db backed =
        (([], es, refl, omega arith, refl), backed)
    has_permission-Answers (some u) none codename project db backed =
        elim (Bool-cases u.is_authenticated) [
          | inr anonymous ↦ rw anonymous (([], es, refl, omega arith, refl), backed)
          | inl auth ↦ elim (Bool-cases u.is_superuser) [
            | inl super ↦ rw (auth, super) (([], es, refl, omega arith, refl), backed)
            | inr plain ↦ rw (auth, plain) (([], es, refl, omega arith, refl), backed)
          ]
        ]
    has_permission-Answers (some u) (some org) codename project db backed =
        elim (Bool-cases u.is_authenticated) [
          | inr anonymous ↦ rw anonymous (([], es, refl, omega arith, refl), backed)
          | inl auth ↦ elim (Bool-cases u.is_superuser) [
            | inl super ↦ rw (auth, super) (([], es, refl, omega arith, refl), backed)
            | inr plain ↦ plain_Answers u org codename project db auth plain backed
          ]
        ]

  step-IsBacked :
      (e : Event cache) (es : List (Event cache))
      → IsBacked es (after cache es start).db
      → IsBacked es (step cache (after cache es start) e).db
  unfolding step
  step-IsBacked (waits d) es backed = backed
  step-IsBacked (changes rows) es backed = backed
  step-IsBacked (asks user organization codename project) es backed =
      (has_permission-Answers es user organization codename project (after cache es start).db
        backed).1

  pub after-IsBacked :
      ((k : Key) → laws.entry k start.db ≡ none)
      → (es : List (Event cache)) → IsBacked es (after cache es start).db
  unfolding after
  after-IsBacked empty [] k v expiry e = ground (arith, empty k, e)
  after-IsBacked empty (e ∷ es) k v expiry found =
      Backed-later e es k v expiry (step-IsBacked e es (after-IsBacked empty es) k v expiry found)

  -- From an empty cache, after any history of role changes, waiting and questions, the answer of
  -- `has_permission` is the one that the rows gave at some moment of the history that is less than
  -- 30 seconds old: no change of a role takes longer to have effect.
  pub answer_recent :
      ((k : Key) → laws.entry k start.db ≡ none)
      → (es : List (Event cache)) (user : Option User) (organization : Option ℕ) (codename : String)
        (project : Option ℕ)
      → let s = after cache es start in
        Answers es user organization codename project
          (has_permission cache s.now s.rows user organization codename project s.db).0
  answer_recent empty es user organization codename project =
      (has_permission-Answers es user organization codename project (after cache es start).db
        (after-IsBacked empty es)).0
