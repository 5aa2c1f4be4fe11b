-- ===== src/Permissions/Credentials.antt =====
-- API tokens: `APIToken` of authentication/models.py and `APITokenAuthentication`. SHA-256 is a
-- parameter, and the header is given as its words.
use node_pilot.Common.{
  ℕ, Bool, true, false, Option, none, some, List, [], ◌∷◌, String, str_eq, leb, not, if◌then◌else◌,
  map,
}
use node_pilot.Common.Error.{authentication_failed}
use node_pilot.Common.Exec.{Result, ok, err}
use node_pilot.Permissions.Model.{ApiToken}

unfoldable pub is_valid : ℕ → ApiToken → Bool
is_valid now token =
    if token.revoked
    then false
    else elim token.expires_at [ none ↦ true | some expiry ↦ not (leb expiry now) ]

unfoldable pub revoke : ℕ → ApiToken → ApiToken
revoke now token = record token { revoked = true; revoked_at = some now }

-- The token with a hash, of the table, where hashes are unique.
unfoldable pub find_token : String → List ApiToken → Option ApiToken
find_token hash [] = none
find_token hash (t ∷ tokens) = if str_eq t.token_hash hash then some t else find_token hash tokens

-- `mark_used`, on the row.
unfoldable pub mark_used : ℕ → String → List ApiToken → List ApiToken
mark_used now hash tokens =
    map (λ t. if str_eq t.token_hash hash then record t { last_used_at = some now } else t) tokens

-- The part of `authenticate` after the header is known to be well formed.
unfoldable pub accept : ℕ → String → List ApiToken → Result (Option ApiToken) × List ApiToken
unfolding find_token mark_used is_valid
accept now hash tokens = elim (find_token hash tokens) [
  | none ↦ (err authentication_failed, tokens)
  | some token ↦
      if not (is_valid now token)
      then (err authentication_failed, tokens)
      else if not token.user.is_active
      then (err authentication_failed, tokens)
      else (ok (some token), mark_used now token.token_hash tokens)
]

-- `authenticate`: nothing where the header is for another scheme.
unfoldable pub authenticate :
    (String → String) → ℕ → List String → List ApiToken → Result (Option ApiToken) × List ApiToken
unfolding accept
authenticate sha256 now [] tokens = (ok none, tokens)
authenticate sha256 now (keyword ∷ raw_token ∷ []) tokens =
    if str_eq keyword "Token" then accept now (sha256 raw_token) tokens else (ok none, tokens)
authenticate sha256 now (keyword ∷ _) tokens =
    if str_eq keyword "Token" then (err authentication_failed, tokens) else (ok none, tokens)
