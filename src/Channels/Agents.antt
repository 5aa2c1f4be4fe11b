-- ===== src/Channels/Agents.antt =====
-- `AgentConsumer`: the connection that a node's agent keeps open to the controller. `json.loads`
-- and SHA-256 are parameters; the agent's texts, where they are JSON, are objects.
use node_pilot.Common.{
  ℕ, Bool, true, false, ◌&&◌, not, Option, none, some, List, [], ◌∷◌, ◌++◌, String, str_append,
  str_eq, is_some, filter_by, if◌then◌else◌,
}
use node_pilot.Channels.Redis.{Redis}
use node_pilot.Nodes.Model.{AgentStatus}

abbrev pub connection_key : String → String
connection_key node_uuid = str_append "nodepilot:agent:conn:" node_uuid

abbrev pub response_key : String → String
response_key request_id = str_append "nodepilot:agent:response:" request_id

-- The row of an agent, with its node's uuid.
pub record AgentRow : Type 0 where
  pub pk : ℕ
  pub node_uuid : String
  pub token_hash : String
  pub status : AgentStatus

abbrev pub is_active : AgentStatus → Bool
is_active AgentStatus.active = true
is_active _ = false

-- What the code reads of a message; `text` is the message itself.
pub record Message : Type 0 where
  pub kind : Option String
  pub request_id : Option String
  pub session_id : Option String
  pub body : Option String
  pub text : String

-- An attribute that is there and not blank.
abbrev pub filled : Option String → Option String
filled none = none
filled (some s) = if str_eq s "" then none else some s

-- `message.get("type", "response") == "console_data"`
abbrev pub is_console : Option String → Bool
is_console none = false
is_console (some kind) = str_eq kind "console_data"

-- What is sent to the members of a group.
pub record GroupMessage : Type 0 where
  pub group : String
  pub body : String

-- The groups of the channel layer (a group and a channel in it), what was sent to groups, and
-- Redis.
pub record Layer (redis : Redis) : Type 0 where
  pub groups : List (String × String)
  pub group_sent : List GroupMessage
  pub db : redis.Db

-- A consumer: the node it is for and its channel; `group_name` is there once it was accepted.
pub record Consumer : Type 0 where
  pub node_uuid : String
  pub channel_name : String
  pub group_name : Option String

-- An outcome of `connect`.
pub data Handshake : Type 0 where
  accepted : Handshake
  closed : ℕ → Handshake

-- The first active agent with the hash of the token, if its node is the one of the URL.
abbrev pub first_active : String → List AgentRow → Option AgentRow
first_active hash [] = none
first_active hash (a ∷ agents) =
    if str_eq a.token_hash hash && is_active a.status then some a else first_active hash agents

-- `_authenticate`
unfoldable pub authenticate :
    (String → String) → List AgentRow → String → Option String → Option AgentRow
authenticate sha256 agents node_uuid none = none
authenticate sha256 agents node_uuid (some raw_token) =
    if str_eq raw_token "" then none else elim (first_active (sha256 raw_token) agents) [
      | none ↦ none
      | some agent ↦ if str_eq agent.node_uuid node_uuid then some agent else none
    ]

module _ (redis : Redis) where
  -- `group_discard`
  abbrev pub group_discard : String → String → List (String × String) → List (String × String)
  group_discard group channel groups =
      filter_by (λ member. not (str_eq member.0 group && str_eq member.1 channel)) groups

  unfoldable pub connect :
      (String → String)
      → List AgentRow
      → ℕ
      → Option String
      → Consumer
      → Layer redis
      → Handshake × Consumer × Layer redis
  unfolding authenticate
  connect sha256 agents now raw_token c layer =
      elim (authenticate sha256 agents c.node_uuid raw_token) [
        | none ↦ (closed 4401, c, layer)
        | some agent ↦
            let group = str_append "agent." c.node_uuid in
            (
              accepted,
              record c { group_name = some group },
              record layer {
                groups = (group, c.channel_name) ∷ layer.groups;
                db = redis.set_ex now (connection_key c.node_uuid) "1" 120 layer.db;
              },
            )
      ]

  unfoldable pub disconnect : Consumer → Layer redis → Layer redis
  disconnect c layer = elim c.group_name [
    | none ↦ layer
    | some group ↦ record layer {
      groups = group_discard group c.channel_name layer.groups;
      db = redis.del (connection_key c.node_uuid) layer.db;
    }
  ]

  -- `_relay_console_data`
  unfoldable pub relay_console_data : Message → Layer redis → Layer redis
  relay_console_data message layer = elim (filled message.session_id) [
    | none ↦ layer
    | some session_id ↦ record layer {
      group_sent =
          layer.group_sent
          ++ record {
            group = str_append "console." session_id;
            body = elim message.body [ none ↦ "" | some b ↦ b ];
          }
            ∷ [];
    }
  ]

  -- What `receive` does with a message that was read.
  unfoldable pub handle : ℕ → Message → Layer redis → Layer redis
  unfolding relay_console_data
  handle now message layer =
      if is_console message.kind
      then relay_console_data message layer
      else elim (filled message.request_id) [
        | none ↦ layer
        | some request_id ↦ record layer {
          db = redis.set_ex now (response_key request_id) message.text 60 layer.db;
        }
      ]

  -- `receive`, of a text; `parse` gives nothing where `json.loads` raises `ValueError`.
  unfoldable pub receive :
      (String → Option Message) → ℕ → String → Consumer → Layer redis → Layer redis
  unfolding handle
  receive parse now text c layer = if str_eq text "" then layer else elim (parse text) [
    | none ↦ layer
    | some message ↦
        let alive = redis.expire now (connection_key c.node_uuid) 120 layer.db in
        handle now message (record layer { db = alive })
  ]

  -- `is_agent_connected` of agent_client.py: `EXISTS` on the connection key.
  unfoldable pub is_agent_connected : ℕ → String → redis.Db → Bool
  is_agent_connected now node_uuid db = is_some (redis.get now (connection_key node_uuid) db)
