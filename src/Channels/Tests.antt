-- ===== src/Channels/Tests.antt =====
-- The theorems on connections with a Redis that is a function, and tests.
use node_pilot.Common.{
  ℕ, ◌+◌, ◌≡◌, refl, true, false, Option, none, some, List, [], ◌∷◌, String, str_eq, eq_iff, arith,
  if◌then◌else◌,
}
use node_pilot.Nodes.Model.{AgentStatus}
use node_pilot.Channels.Redis.{Redis, IsRedis, live, prolonged}
use node_pilot.Channels.Tickets.{Account, issue_ticket, scope_user}
use node_pilot.Channels.SingleUse.{Use, redeems, issues, attempts, first_only, answers, ticket_once}
use node_pilot.Channels.Agents.{
  AgentRow, Consumer, Layer, Message, authenticate, is_agent_connected,
}
use node_pilot.Channels.Presence.{
  Event, connects, receives, disconnects, Setting, seen_through, in_time, run, agent_presence,
}
use node_pilot.Channels.Reachable.{ends, sends, foreign, stays_connected, lost_until_handshake}

abbrev Entries : Type 0
Entries = String → Option (String × ℕ)

abbrev table : Redis
table = record {
  Db = Entries;
  get = λ now k db. live now (db k);
  set_ex = λ now k v ttl db j. if str_eq k j then some (v, now + ttl) else db j;
  expire = λ now k ttl db j. if str_eq k j then prolonged now ttl (db k) else db j;
  del = λ k db j. if str_eq k j then none else db j;
}

abbrev table-IsRedis : IsRedis table
table-IsRedis = record {
  entry = λ k db. db k;
  get-live = λ now k db. refl;
  entry-set_ex = λ now k v ttl db j. refl;
  entry-expire = λ now k ttl db j. refl;
  entry-del = λ k db j. refl;
}

abbrev empty : Entries
empty = λ k. none

abbrev ann : Account
ann = record { uuid = "ann"; is_active = true }

abbrev bob : Account
bob = record { uuid = "bob"; is_active = true }

abbrev uses : List Use
uses = issues 1 "t2" bob ∷ redeems 2 "t2" ∷ redeems 3 "t1" ∷ redeems 4 "t1" ∷ []

ticket_once_example :
    answers table "t1" uses (issue_ticket table 0 "t1" ann empty)
    ≡ first_only "ann" 30 (attempts "t1" uses)
ticket_once_example =
    ticket_once table table-IsRedis "t1" 0 ann empty uses
      ((λ h. ground (arith, (eq_iff "t2" "t1").1 h)), (tt, (tt, (tt, tt))))

expired_anonymous :
    (scope_user table 31 (ann ∷ []) (some "t1") (issue_ticket table 0 "t1" ann empty)).0 ≡ none
unfolding scope_user issue_ticket
expired_anonymous = refl

in_time_known :
    (scope_user table 29 (ann ∷ []) (some "t1") (issue_ticket table 0 "t1" ann empty)).0 ≡ some ann
unfolding scope_user issue_ticket
in_time_known = refl

abbrev row : AgentRow
row = record { pk = 1; node_uuid = "n1"; token_hash = "secret"; status = AgentStatus.active }

abbrev pong : Message
pong = record { kind = none; request_id = some "r1"; session_id = none; body = none; text = "pong" }

abbrev setting : Setting
setting = record {
  sha256 = λ raw. raw;
  parse = λ text. if str_eq text "pong" then some pong else none;
  agents = row ∷ [];
}

abbrev consumer : String → Consumer
consumer channel = record { node_uuid = "n1"; channel_name = channel; group_name = some "agent.n1" }

abbrev idle : Layer table
idle = record { groups = []; group_sent = []; db = empty }

-- The agent connects again before its first connection is torn down.
abbrev reconnection : List Event
reconnection =
    connects 0 (some "secret") (consumer "a")
    ∷ connects 10 (some "secret") (consumer "b")
    ∷ disconnects (consumer "a")
    ∷ receives 20 "pong" (consumer "b")
    ∷ []

agent_presence_example :
    is_agent_connected table 30 "n1" (run table setting reconnection idle).db
    ≡ in_time 30 (seen_through setting "n1" reconnection none)
agent_presence_example = agent_presence table table-IsRedis setting "n1" reconnection idle 30

abbrev stranger : Consumer
stranger = record (consumer "z") { node_uuid = "n2" }

abbrev chatter : List Event
chatter =
    receives 100 "pong" (consumer "a")
    ∷ disconnects stranger
    ∷ receives 200 "pong" (consumer "a")
    ∷ []

stays_connected_example :
    is_agent_connected table 300 "n1"
      (run table setting (connects 0 (some "secret") (consumer "a") ∷ chatter) idle).db
    ≡ true
unfolding authenticate
stays_connected_example =
    stays_connected table table-IsRedis setting (consumer "a") (some "secret") 0 300 chatter idle
      refl
      (sends 0 100 300 "pong" (consumer "a") _ refl refl (omega arith) (
        foreign 100 300 (disconnects stranger) _ refl (
          sends 100 200 300 "pong" (consumer "a") _ refl refl (omega arith)
            (ends 200 300 (omega arith)))))

lost_until_handshake_example :
    is_agent_connected table 30 "n1"
      (run table setting
        (disconnects (consumer "a") ∷ receives 20 "pong" (consumer "b") ∷ [])
        idle).db
    ≡ false
lost_until_handshake_example =
    lost_until_handshake table table-IsRedis setting (consumer "a")
      (receives 20 "pong" (consumer "b") ∷ []) idle 30 refl (tt, tt)
