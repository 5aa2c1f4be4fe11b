-- ===== src/Channels/Tickets.antt =====
-- Tickets for WebSocket connections.
use node_pilot.Common.{
  ℕ, Bool, Option, none, some, List, [], ◌∷◌, String, str_append, str_eq, if◌then◌else◌, ◌&&◌,
}
use node_pilot.Channels.Redis.{Redis}

abbrev pub ticket_ttl_seconds : ℕ
ticket_ttl_seconds = 30

abbrev pub ticket_key : String → String
ticket_key ticket = str_append "nodepilot:ws_ticket:" ticket

-- The row of a user.
pub record Account : Type 0 where
  pub uuid : String
  pub is_active : Bool

-- `User.objects.get(uuid=..., is_active=True)`; `none` where it raises.
unfoldable pub active_account : String → List Account → Option Account
active_account uuid [] = none
active_account uuid (a ∷ accounts) =
    if str_eq a.uuid uuid && a.is_active then some a else active_account uuid accounts

module _ (redis : Redis) where
  -- `issue_ticket`, with the ticket that `secrets` drew.
  unfoldable pub issue_ticket : ℕ → String → Account → redis.Db → redis.Db
  issue_ticket now ticket user db =
      redis.set_ex now (ticket_key ticket) user.uuid ticket_ttl_seconds db

  -- `_REDEEM_SCRIPT`, which Redis runs as one step.
  unfoldable pub redeem_script : ℕ → String → redis.Db → Option String × redis.Db
  redeem_script now key db = elim (redis.get now key db) [
    | some v ↦ (some v, redis.del key db)
    | none ↦ (none, db)
  ]

  unfoldable pub redeem_ticket : ℕ → String → redis.Db → Option String × redis.Db
  unfolding redeem_script
  redeem_ticket now ticket db = redeem_script now (ticket_key ticket) db

  -- `_user_from_ticket`; nothing is `AnonymousUser`.
  unfoldable pub user_from_ticket : ℕ → List Account → String → redis.Db → Option Account × redis.Db
  unfolding redeem_ticket active_account
  user_from_ticket now accounts ticket db =
      let (user_uuid, db') = redeem_ticket now ticket db in
      (elim user_uuid [ none ↦ none | some uuid ↦ active_account uuid accounts ], db')

  -- The user that `TicketAuthMiddleware` puts in the scope, by the query's `ticket`, if any.
  unfoldable pub scope_user :
      ℕ → List Account → Option String → redis.Db → Option Account × redis.Db
  unfolding user_from_ticket
  scope_user now accounts none db = (none, db)
  scope_user now accounts (some ticket) db =
      if str_eq ticket "" then (none, db) else user_from_ticket now accounts ticket db
