-- ===== src/Channels/Presence.antt =====
-- The agents' connections through any history, against an abstract view: until when an agent
-- counts as connected.
use node_pilot.Common.{
  ℕ, ◌+◌, ◌≡◌, refl, sym, ap, ◌∙◌, ◌⊎◌, Bool, true, false, ◌&&◌, not, Option, none, some, List, [],
  ◌∷◌, String, str_eq, ltb, is_some, if◌then◌else◌, arith, Bool-cases, Option-cases, inl, inr,
  eq_iff,
}
use node_pilot.Channels.Redis.{
  Redis, IsRedis, live, prolonged, str_eq_self, str_eq-other, str_eq-false→ne, prefixed-ne,
}
use node_pilot.Channels.Agents.{
  AgentRow, Consumer, Layer, Message, connection_key, connect, disconnect, receive, authenticate,
  is_agent_connected,
}
use node_pilot.Channels.Connected.{presence-handle}

-- A consumer connects with a token, receives a text at a time, or disconnects.
pub data Event : Type 0 where
  connects : ℕ → Option String → Consumer → Event
  receives : ℕ → String → Consumer → Event
  disconnects : Consumer → Event

-- The agents' rows, `json.loads` and SHA-256.
pub record Setting : Type 0 where
  pub sha256 : String → String
  pub parse : String → Option Message
  pub agents : List AgentRow

abbrev pub readable : Setting → String → Bool
readable g text = not (str_eq text "") && is_some (g.parse text)

abbrev pub admits : Setting → Option String → Consumer → Bool
admits g raw_token c = is_some (authenticate g.sha256 g.agents c.node_uuid raw_token)

abbrev pub extended : ℕ → Option ℕ → Option ℕ
extended now none = none
extended now (some expiry) = if ltb now expiry then some (now + 120) else none

-- Until when the node's agent counts as connected, after an event.
abbrev pub seen_after : Setting → String → Option ℕ → Event → Option ℕ
seen_after g node s (connects now raw_token c) =
    if str_eq c.node_uuid node && admits g raw_token c then some (now + 120) else s
seen_after g node s (receives now text c) =
    if str_eq c.node_uuid node && readable g text then extended now s else s
seen_after g node s (disconnects c) =
    if str_eq c.node_uuid node && is_some c.group_name then none else s

abbrev pub seen_through : Setting → String → List Event → Option ℕ → Option ℕ
seen_through g node [] s = s
seen_through g node (e ∷ es) s = seen_through g node es (seen_after g node s e)

abbrev pub in_time : ℕ → Option ℕ → Bool
in_time now none = false
in_time now (some expiry) = ltb now expiry

module _ (redis : Redis) (g : Setting) where
  unfoldable pub perform : Event → Layer redis → Layer redis
  perform (connects now raw_token c) layer =
      (connect redis g.sha256 g.agents now raw_token c layer).2
  perform (receives now text c) layer = receive redis g.parse now text c layer
  perform (disconnects c) layer = disconnect redis c layer

  unfoldable pub run : List Event → Layer redis → Layer redis
  run [] layer = layer
  run (e ∷ es) layer = run es (perform e layer)

module _ (redis : Redis) (laws : IsRedis redis) (g : Setting) where
  -- The time of expiry of an entry.
  abbrev pub expiry_of : Option (String × ℕ) → Option ℕ
  expiry_of none = none
  expiry_of (some (value, expiry)) = some expiry

  expiry_of-prolonged :
      (now : ℕ) (entry : Option (String × ℕ))
      → expiry_of (prolonged now 120 entry) ≡ extended now (expiry_of entry)
  expiry_of-prolonged now none = refl
  expiry_of-prolonged now (some (value, expiry)) = ground arith

  is_some-live :
      (now : ℕ) (entry : Option (String × ℕ))
      → is_some (live now entry) ≡ in_time now (expiry_of entry)
  is_some-live now none = refl
  is_some-live now (some (value, expiry)) = ground arith

  keys_apart : (j k : String) → str_eq (connection_key j) (connection_key k) ≡ str_eq j k
  keys_apart j k = elim (Bool-cases (str_eq j k)) [
    | inl same ↦ rw ((eq_iff j k).0 same) (str_eq_self (connection_key k) ∙ sym (str_eq_self k))
    | inr apart ↦
        str_eq-other (connection_key j) (connection_key k)
          (prefixed-ne "nodepilot:agent:conn:" j k (str_eq-false→ne j k apart))
        ∙ sym apart
  ]

  abbrev pub seen : String → Layer redis → Option ℕ
  seen node layer = expiry_of (laws.entry (connection_key node) layer.db)

  seen-connect :
      (node : String) (now : ℕ) (raw_token : Option String) (c : Consumer) (layer : Layer redis)
      → seen node (perform redis g (connects now raw_token c) layer)
        ≡ seen_after g node (seen node layer) (connects now raw_token c)
  unfolding perform connect
  seen-connect node now raw_token c layer = ground (
    arith,
    laws.entry-set_ex now (connection_key c.node_uuid) "1" 120 layer.db (connection_key node),
    keys_apart c.node_uuid node,
  )

  seen-disconnect :
      (node : String) (c : Consumer) (layer : Layer redis)
      → seen node (perform redis g (disconnects c) layer)
        ≡ seen_after g node (seen node layer) (disconnects c)
  unfolding perform disconnect
  seen-disconnect node c layer = ground (
    arith,
    laws.entry-del (connection_key c.node_uuid) layer.db (connection_key node),
    keys_apart c.node_uuid node,
  )

  seen-message :
      (node : String) (now : ℕ) (text : String) (c : Consumer) (layer : Layer redis) (m : Message)
      → str_eq text "" ≡ false
      → g.parse text ≡ some m
      → seen node (receive redis g.parse now text c layer)
        ≡ (if str_eq c.node_uuid node then extended now (seen node layer) else seen node layer)
  unfolding receive
  seen-message node now text c layer m given parsed =
      let alive = redis.expire now (connection_key c.node_uuid) 120 layer.db in
      rw (given, parsed)
        (ap expiry_of (
            presence-handle redis laws node now m (record layer { db = alive })
            ∙ laws.entry-expire now (connection_key c.node_uuid) 120 layer.db (connection_key node))
          ∙ (rw (keys_apart c.node_uuid node) (elim (Bool-cases (str_eq c.node_uuid node)) [
            | inl same ↦ rw same (
                expiry_of-prolonged now (laws.entry (connection_key c.node_uuid) layer.db)
                ∙ ap (λ k. extended now (seen k layer)) ((eq_iff c.node_uuid node).0 same))
            | inr apart ↦ rw apart
          ])))

  receive-unread :
      (now : ℕ) (text : String) (c : Consumer) (layer : Layer redis)
      → (str_eq text "" ≡ true) ⊎ (g.parse text ≡ none)
      → receive redis g.parse now text c layer ≡ layer
  unfolding receive
  receive-unread now text c layer (inl blank) = rw blank
  receive-unread now text c layer (inr malformed) = ground (arith, malformed)

  seen-receive :
      (node : String) (now : ℕ) (text : String) (c : Consumer) (layer : Layer redis)
      → seen node (perform redis g (receives now text c) layer)
        ≡ seen_after g node (seen node layer) (receives now text c)
  unfolding perform
  seen-receive node now text c layer = elim (Bool-cases (str_eq text "")) [
    | inl blank ↦ ground (arith, blank, receive-unread now text c layer (inl blank))
    | inr given ↦ elim (Option-cases (g.parse text)) [
      | inl malformed ↦ ground (arith, malformed, receive-unread now text c layer (inr malformed))
      | inr (m, parsed) ↦
          ground (arith, given, parsed, seen-message node now text c layer m given parsed)
    ]
  ]

  seen-run :
      (node : String) (es : List Event) (layer : Layer redis)
      → seen node (run redis g es layer) ≡ seen_through g node es (seen node layer)
  unfolding run
  seen-run node [] layer = refl
  seen-run node (connects now raw_token c ∷ es) layer =
      seen-run node es (perform redis g (connects now raw_token c) layer)
      ∙ ap (seen_through g node es) (seen-connect node now raw_token c layer)
  seen-run node (receives now text c ∷ es) layer =
      seen-run node es (perform redis g (receives now text c) layer)
      ∙ ap (seen_through g node es) (seen-receive node now text c layer)
  seen-run node (disconnects c ∷ es) layer =
      seen-run node es (perform redis g (disconnects c) layer)
      ∙ ap (seen_through g node es) (seen-disconnect node c layer)

  -- After any history of handshakes with any tokens, messages and disconnections, of any nodes'
  -- consumers in any order, the controller takes a node's agent to be connected exactly while the
  -- abstract view says so: an accepted handshake makes it connected for 120 seconds, a readable
  -- message that comes in time prolongs that to 120 seconds from then, a disconnection of any
  -- accepted consumer of the node ends it, and nothing else matters.
  pub agent_presence :
      (node : String) (es : List Event) (layer : Layer redis) (now : ℕ)
      → is_agent_connected redis now node (run redis g es layer).db
        ≡ in_time now (seen_through g node es (seen node layer))
  unfolding is_agent_connected
  agent_presence node es layer now =
      ap is_some (laws.get-live now (connection_key node) (run redis g es layer).db)
      ∙ is_some-live now (laws.entry (connection_key node) (run redis g es layer).db)
      ∙ ap (in_time now) (seen-run node es layer)
