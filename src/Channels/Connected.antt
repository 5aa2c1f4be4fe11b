-- ===== src/Channels/Connected.antt =====
-- What a message leaves of the connection keys: an answer is stored under another key.
use node_pilot.Common.{
  ℕ, ◌≡◌, ◌≢◌, sym, ap, ◌∙◌, Option, String, str_append, arith, Option-cases, inl, inr,
}
use Prim.Native.Char.{code}
use text.Mathlib.TextLemmas.{append_cancel_left, append_assoc, cons-append}
use node_pilot.Channels.Redis.{Redis, IsRedis, str_eq-other}
use node_pilot.Channels.Agents.{
  Layer, Message, connection_key, response_key, filled, handle, relay_console_data,
}

abbrev first_code : String → ℕ
first_code String.[] = 0
first_code (String.◌∷◌ c s) = code c

response_key-ne :
    (request_id node_uuid : String) → response_key request_id ≢ connection_key node_uuid
response_key-ne request_id node_uuid same =
    let tails : str_append "response:" request_id ≡ str_append "conn:" node_uuid =
      append_cancel_left "nodepilot:agent:" _ _ (
        sym (append_assoc "nodepilot:agent:" "response:" request_id)
        ∙ same
        ∙ append_assoc "nodepilot:agent:" "conn:" node_uuid) in
    let initials : 114 ≡ first_code (str_append "conn:" node_uuid) =
      ap first_code (sym (cons-append "r" "esponse:" request_id) ∙ tails) in
    omega (arith, initials, ap first_code (cons-append "c" "onn:" node_uuid))

module _ (redis : Redis) (laws : IsRedis redis) where
  -- The value and the time of expiry of a node's connection key.
  abbrev pub presence : String → Layer redis → Option (String × ℕ)
  presence node layer = laws.entry (connection_key node) layer.db

  presence-relay :
      (node : String) (m : Message) (layer : Layer redis)
      → presence node (relay_console_data redis m layer) ≡ presence node layer
  unfolding relay_console_data
  presence-relay node m layer = ground arith

  pub presence-handle :
      (node : String) (now : ℕ) (m : Message) (layer : Layer redis)
      → presence node (handle redis now m layer) ≡ presence node layer
  unfolding handle
  presence-handle node now m layer = elim (Option-cases (filled m.request_id)) [
    | inl missing ↦ ground (arith, missing, presence-relay node m layer)
    | inr (request_id, given) ↦ ground (
      arith,
      given,
      presence-relay node m layer,
      laws.entry-set_ex now (response_key request_id) m.text 60 layer.db (connection_key node),
      str_eq-other (response_key request_id) (connection_key node)
          (response_key-ne request_id node),
    )
  ]
