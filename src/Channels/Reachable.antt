-- ===== src/Channels/Reachable.antt =====
-- When an agent counts as connected, and when not.
use node_pilot.Common.{
  ℕ, ◌+◌, ◌<◌, ◌≡◌, refl, ap, ◌∙◌, true, false, ◌&&◌, Option, none, some, List, [], ◌∷◌, All,
  String, str_eq, is_some, arith,
}
use node_pilot.Channels.Redis.{Redis, IsRedis, str_eq_self}
use node_pilot.Channels.Agents.{Consumer, Layer, is_agent_connected}
use node_pilot.Channels.Presence.{
  Event, connects, receives, disconnects, Setting, readable, admits, seen_after, seen_through,
  in_time, run, seen, agent_presence,
}

module _ (g : Setting) where
  -- An event that says nothing of a node: of another node's consumer, or a handshake or a
  -- disconnection of one that is not let in, or a text that cannot be read.
  abbrev pub IsForeign : String → Event → Type 0
  IsForeign node (connects now raw_token c) =
      str_eq c.node_uuid node && admits g raw_token c ≡ false
  IsForeign node (receives now text c) = str_eq c.node_uuid node && readable g text ≡ false
  IsForeign node (disconnects c) = str_eq c.node_uuid node && is_some c.group_name ≡ false

  -- A history in which the node's readable texts, each with its time, come less than 120 seconds
  -- after one another, the first of them less than that after `last`, and `now` less than that after
  -- the last; foreign events stand anywhere among them.
  pub data IsSteady (node : String) : ℕ → List Event → ℕ → Type 0 where
    ends : (last now : ℕ) → now < last + 120 → IsSteady node last [] now
    sends :
        (last time now : ℕ) (text : String) (c : Consumer) (es : List Event)
        → str_eq c.node_uuid node ≡ true
        → readable g text ≡ true
        → time < last + 120
        → IsSteady node time es now
        → IsSteady node last (receives time text c ∷ es) now
    foreign :
        (last now : ℕ) (e : Event) (es : List Event)
        → IsForeign node e
        → IsSteady node last es now
        → IsSteady node last (e ∷ es) now

  foreign_seen :
      (node : String) (e : Event) (s : Option ℕ) → IsForeign node e → seen_after g node s e ≡ s
  foreign_seen node (connects now raw_token c) s h = ground (arith, h)
  foreign_seen node (receives now text c) s h = ground (arith, h)
  foreign_seen node (disconnects c) s h = ground (arith, h)

  steady_seen :
      (node : String) (last : ℕ) (es : List Event) (now : ℕ)
      → IsSteady node last es now
      → in_time now (seen_through g node es (some (last + 120))) ≡ true
  steady_seen node _ _ _ (ends last now h) = ground arith
  steady_seen node _ _ _ (sends last time now text c es own good soon rest) =
      let prolongs : seen_after g node (some (last + 120)) (receives time text c)
          ≡ some (time + 120) =
        ground (arith, own, good, soon) in
      ap (λ s. in_time now (seen_through g node es s)) prolongs ∙ steady_seen node time es now rest
  steady_seen node _ _ _ (foreign last now e es other rest) =
      ap (λ s. in_time now (seen_through g node es s))
        (foreign_seen node e (some (last + 120)) other)
      ∙ steady_seen node last es now rest

  let_in :
      (c : Consumer) (raw_token : Option String) (start : ℕ) (s : Option ℕ)
      → admits g raw_token c ≡ true
      → seen_after g c.node_uuid s (connects start raw_token c) ≡ some (start + 120)
  let_in c raw_token start s admitted = rw (str_eq_self c.node_uuid, admitted)

  -- No handshake of the node is accepted in this event.
  abbrev pub IsQuiet : String → Event → Type 0
  IsQuiet node (connects now raw_token c) = str_eq c.node_uuid node && admits g raw_token c ≡ false
  IsQuiet node (receives now text c) = Unit
  IsQuiet node (disconnects c) = Unit

  quiet_seen :
      (node : String) (es : List Event) → All (IsQuiet node) es → seen_through g node es none ≡ none
  quiet_seen node [] h = refl
  quiet_seen node (connects now raw_token c ∷ es) h = rw h.0 (quiet_seen node es h.1)
  quiet_seen node (receives now text c ∷ es) h = ground (arith, quiet_seen node es h.1)
  quiet_seen node (disconnects c ∷ es) h = ground (arith, quiet_seen node es h.1)

module _ (redis : Redis) (laws : IsRedis redis) (g : Setting) where
  -- An agent that was let in, and whose readable texts then come at gaps of less than 120 seconds,
  -- is taken to be connected, up to 120 seconds after the last of them, whatever other nodes'
  -- consumers do meanwhile, as long as no accepted consumer of its own node disconnects.
  pub stays_connected :
      (c : Consumer) (raw_token : Option String) (start now : ℕ) (es : List Event)
      (layer : Layer redis)
      → admits g raw_token c ≡ true
      → IsSteady g c.node_uuid start es now
      → is_agent_connected redis now c.node_uuid
          (run redis g (connects start raw_token c ∷ es) layer).db
        ≡ true
  stays_connected c raw_token start now es layer admitted steady =
      agent_presence redis laws g c.node_uuid (connects start raw_token c ∷ es) layer now
      ∙ ap (λ s. in_time now (seen_through g c.node_uuid es s))
          (let_in g c raw_token start (seen redis laws g c.node_uuid layer) admitted)
      ∙ steady_seen g c.node_uuid start es now steady

  -- Once an accepted consumer of a node disconnects, whatever other connections the node has and
  -- whatever is sent over them, the controller takes the agent to be unreachable until the next
  -- accepted handshake.
  pub lost_until_handshake :
      (c : Consumer) (es : List Event) (layer : Layer redis) (now : ℕ)
      → is_some c.group_name ≡ true
      → All (IsQuiet g c.node_uuid) es
      → is_agent_connected redis now c.node_uuid (run redis g (disconnects c ∷ es) layer).db ≡ false
  lost_until_handshake c es layer now joined quiet =
      agent_presence redis laws g c.node_uuid (disconnects c ∷ es) layer now
      ∙ rw (str_eq_self c.node_uuid, joined) (rw (quiet_seen g c.node_uuid es quiet))
