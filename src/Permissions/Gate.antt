-- ===== src/Permissions/Gate.antt =====
-- `HasResourcePermission`, and the rows that a list shows. An object is seen through its
-- attributes; a null attribute is absent. `plain` is a value that is no row.
use node_pilot.Common.{
  ℕ, Bool, true, false, ◌&&◌, not, Option, none, some, List, [], ◌∷◌, String, str_eq, if◌then◌else◌,
}
use node_pilot.Common.Error.{attribute_error}
use node_pilot.Common.Exec.{Result, ok, err}
use node_pilot.Permissions.Model.{RoleAssignment, User, Cache, ApiToken}
use node_pilot.Permissions.Policy.{contains, has_permission, organizations_with_permission}

mutual
  pub data Obj : Type 0 where
    instance_of : ℕ → Attributes → Obj
    plain : ℕ → Obj

  pub data Attributes : Type 0 where
    end : Attributes
    attribute : String → Obj → Attributes → Attributes

abbrev pub find_attribute : String → Attributes → Option Obj
find_attribute name end = none
find_attribute name (attribute n o rest) =
    if str_eq n name then some o else find_attribute name rest

-- `getattr(target, part, None)`
abbrev pub get_attribute : String → Obj → Option Obj
get_attribute name (instance_of _ attributes) = find_attribute name attributes
get_attribute name (plain _) = none

pub record View : Type 0 where
  pub action : String
  pub detail : Bool
  pub permission_map : List (String × String)
  pub required_permission : Option String
  -- `organization_field_path`, split at `__`.
  pub organization_field_path : List String

-- `target` is the organization that `get_organization` finds for the request's parameters.
pub record Request : Type 0 where
  pub user : Option User
  pub api_token : Option ApiToken
  pub target : Option ℕ

abbrev pub lookup : String → List (String × String) → Option String
lookup k [] = none
lookup k ((j, v) ∷ rest) = if str_eq j k then some v else lookup k rest

-- `_resolve_codename`
unfoldable pub resolve_codename : View → Option String
resolve_codename view = elim view.permission_map [
  | [] ↦ view.required_permission
  | entry ∷ rest ↦ lookup view.action (entry ∷ rest)
]

-- `_token_permits`
unfoldable pub token_permits : Option ApiToken → String → Bool
token_permits none codename = true
token_permits (some token) codename = elim token.scopes [
  | [] ↦ true
  | scope ∷ scopes ↦ contains codename (scope ∷ scopes)
]

-- `_resolve_organization_from_object`, for a path.
unfoldable pub walk : List String → Obj → Option Obj
walk [] target = some target
walk (part ∷ parts) target = elim (get_attribute part target) [
  | none ↦ none
  | some next ↦ walk parts next
]

abbrev pub is_authenticated : Option User → Bool
is_authenticated none = false
is_authenticated (some user) = user.is_authenticated

abbrev pub is_superuser : Option User → Bool
is_superuser none = false
is_superuser (some user) = user.is_superuser

-- `self.permission_map.get("list") or getattr(self, "required_permission", None)`
abbrev pub list_codename : View → Option String
list_codename view = elim (lookup "list" view.permission_map) [
  | some codename ↦ some codename
  | none ↦ view.required_permission
]

module _ (cache : Cache) where
  -- `has_permission` of the policies, on what the walk found: it reads `organization.pk`, unless
  -- the user settles the answer.
  unfoldable pub policy_on :
      ℕ
      → List RoleAssignment
      → Option User
      → Option Obj
      → String
      → cache.Db
      → Result Bool × cache.Db
  unfolding has_permission
  policy_on now rows user none codename db =
      let (allowed, db') = has_permission cache now rows user none codename none db in
      (ok allowed, db')
  policy_on now rows user (some (instance_of pk _)) codename db =
      let (allowed, db') = has_permission cache now rows user (some pk) codename none db in
      (ok allowed, db')
  policy_on now rows user (some (plain _)) codename db =
      if is_authenticated user && not (is_superuser user)
      then (err attribute_error, db)
      else (ok (is_authenticated user), db)

  -- The method `has_permission` of the gate.
  unfoldable pub request_permission :
      ℕ → List RoleAssignment → Request → View → cache.Db → Bool × cache.Db
  unfolding resolve_codename token_permits has_permission
  request_permission now rows request view db =
      if not (is_authenticated request.user) then (false, db) else elim (resolve_codename view) [
        | none ↦ (false, db)
        | some codename ↦
            if not (token_permits request.api_token codename)
            then (false, db)
            else if view.detail
            then (true, db)
            else if str_eq view.action "list"
            then (true, db)
            else has_permission cache now rows request.user request.target codename none db
      ]

  -- The method `has_object_permission` of the gate.
  unfoldable pub object_permission :
      ℕ → List RoleAssignment → Request → View → Obj → cache.Db → Result Bool × cache.Db
  unfolding resolve_codename token_permits walk policy_on
  object_permission now rows request view obj db = elim (resolve_codename view) [
    | none ↦ (ok false, db)
    | some codename ↦
        if not (token_permits request.api_token codename)
        then (ok false, db)
        else policy_on now rows request.user (walk view.organization_field_path obj) codename db
  ]

  -- What REST framework asks for one object: both methods, in this order.
  unfoldable pub reaches_object :
      ℕ → List RoleAssignment → Request → View → Obj → cache.Db → Result Bool × cache.Db
  unfolding request_permission object_permission
  reaches_object now rows request view obj db =
      let (allowed, db') = request_permission now rows request view db in
      if allowed then object_permission now rows request view obj db' else (ok false, db')

  -- `get_queryset`: the organizations whose rows are shown, of those that the user is a member
  -- of; all rows are shown to a superuser (`none`).
  unfoldable pub visible_organizations :
      ℕ → List RoleAssignment → User → View → List ℕ → cache.Db → Option (List ℕ) × cache.Db
  unfolding organizations_with_permission
  visible_organizations now rows user view memberships db =
      if user.is_superuser
      then (none, db)
      else if not (str_eq view.action "list")
      then (some memberships, db)
      else elim (list_codename view) [
        | none ↦ (some memberships, db)
        | some codename ↦
            let (orgs, db') =
              organizations_with_permission cache now rows user codename memberships db in
            (some orgs, db')
      ]
