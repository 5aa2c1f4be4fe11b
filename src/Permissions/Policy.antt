-- ===== src/Permissions/Policy.antt =====
-- `policies.py`: the codenames a user holds, through the cache, and the decisions on them. The
-- cache comes back beside each answer.
use node_pilot.Common.{
  ℕ, Bool, true, false, ◌&&◌, not, Option, none, some, List, [], ◌∷◌, ◌++◌, String, ◌==◌, str_eq,
  any, filter_by, if◌then◌else◌,
}
use node_pilot.Common.Error.{permission_denied}
use node_pilot.Common.Exec.{Result, ok, err}
use node_pilot.Permissions.Model.{RoleAssignment, User, Key, Cache}

abbrev pub cache_ttl_seconds : ℕ
cache_ttl_seconds = 30

abbrev pub cache_key : ℕ → ℕ → Option ℕ → Key
cache_key user organization project = record {
  user = user;
  organization = organization;
  project = project;
}

-- `models_q_project`, as a test of an assignment's project.
abbrev pub matches_project : Option ℕ → Option ℕ → Bool
matches_project none none = true
matches_project none (some p) = false
matches_project (some q) none = true
matches_project (some q) (some p) = p == q

-- The query of `_codenames_for`.
abbrev pub selects : Key → RoleAssignment → Bool
selects k a =
    a.user == k.user && a.organization == k.organization && matches_project k.project a.project

-- `codenames.update(...)` over the assignments.
abbrev pub collect : List RoleAssignment → List String
collect [] = []
collect (a ∷ rows) = a.role.permissions ++ collect rows

unfoldable pub codenames_of : List RoleAssignment → Key → List String
codenames_of rows k = collect (filter_by (selects k) rows)

-- `codename in codenames`
abbrev pub contains : String → List String → Bool
contains c names = any (str_eq c) names

module _ (cache : Cache) where
  -- `_codenames_for`, for an organization.
  unfoldable pub codenames_for :
      ℕ → List RoleAssignment → ℕ → ℕ → Option ℕ → cache.Db → List String × cache.Db
  unfolding codenames_of
  codenames_for now rows user organization project db =
      let k = cache_key user organization project in
      elim (cache.get now k db) [
        | some cached ↦ (cached, db)
        | none ↦
            let result = codenames_of rows k in
            (result, cache.set now k result cache_ttl_seconds db)
      ]

  -- `has_permission`, of a user, an organization, a codename and a project.
  unfoldable pub has_permission :
      ℕ
      → List RoleAssignment
      → Option User
      → Option ℕ
      → String
      → Option ℕ
      → cache.Db
      → Bool × cache.Db
  unfolding codenames_for
  has_permission now rows none organization codename project db = (false, db)
  has_permission now rows (some user) organization codename project db =
      if not user.is_authenticated
      then (false, db)
      else if user.is_superuser
      then (true, db)
      else elim organization [
        | none ↦ (false, db)
        | some org ↦
            let (names, db') = codenames_for now rows user.pk org project db in
            (contains codename names, db')
      ]

  unfoldable pub require_permission :
      ℕ
      → List RoleAssignment
      → Option User
      → Option ℕ
      → String
      → Option ℕ
      → cache.Db
      → Result (Unit {0}) × cache.Db
  unfolding has_permission
  require_permission now rows user organization codename project db =
      let (allowed, db') = has_permission now rows user organization codename project db in
      (if allowed then ok tt else err permission_denied, db')

  -- The loop of `organizations_with_permission`.
  unfoldable pub allowed_of :
      ℕ → List RoleAssignment → User → String → List ℕ → cache.Db → List ℕ × cache.Db
  unfolding has_permission
  allowed_of now rows user codename [] db = ([], db)
  allowed_of now rows user codename (org ∷ orgs) db =
      let (allowed, db') = has_permission now rows (some user) (some org) codename none db in
      let (rest, db'') = allowed_of now rows user codename orgs db' in
      (if allowed then org ∷ rest else rest, db'')

  -- `organizations_with_permission`, with the candidates.
  unfoldable pub organizations_with_permission :
      ℕ → List RoleAssignment → User → String → List ℕ → cache.Db → List ℕ × cache.Db
  unfolding allowed_of
  organizations_with_permission now rows user codename candidates db =
      if user.is_superuser
      then (candidates, db)
      else allowed_of now rows user codename candidates db
