-- ===== src/Task/Agent.antt =====
-- backend/apps/nodes/agent_client.py: `send_operation`.
use node_pilot.Common.{
  ℕ, zero, suc, ◌+◌, ◌*◌, not, Option, none, some, List, [], ◌∷◌, ◌++◌, if◌then◌else◌,
}
use node_pilot.Common.Error.{agent_unavailable, agent_operation_failed}
use node_pilot.Common.Exec.{Result, ok, err, Exec}
use node_pilot.Jobs.Model.{Job}
use node_pilot.Jobs.Services.{request_cancel}
use node_pilot.Task.Protocol.{OperationType, AgentResponse, AgentData}
use node_pilot.Task.World.{World}

-- `AGENT_RPC_TIMEOUT_SECONDS`, at its default.
abbrev pub rpc_timeout : ℕ
rpc_timeout = 30

-- The polling loop. It sleeps 0.2 seconds after each read, so that a timeout in seconds allows
-- five reads a second; what an answer holds decides what the call returns.
unfoldable pub poll : ℕ → List (Option AgentResponse) → Result AgentData
poll zero reads = err agent_unavailable
poll (suc left) [] = err agent_unavailable
poll (suc left) (none ∷ reads) = poll left reads
poll (suc left) (some r ∷ reads) = if r.success then ok r.payload else err agent_operation_failed

-- A user's cancel request on the row as it is then; a refused request changes nothing.
unfoldable pub cancel_row : ℕ → Job → Job
unfolding request_cancel
cancel_row now row = elim (request_cancel now row row) [ ok (row', _) ↦ row' | err _ ↦ row ]

module _ {P R : Type 0} where
  -- `send_operation`. The world's next reply says what happens; when none is left the agent is
  -- gone.
  unfoldable pub send_operation : OperationType → P → ℕ → Exec (World P R) AgentData
  unfolding cancel_row
  send_operation op payload timeout w = elim w.replies [
    | [] ↦ (err agent_unavailable, w)
    | r ∷ rest ↦
        if not r.usable
        then (err agent_unavailable, record w { replies = rest })
        else if not r.connected
        then (err agent_unavailable, record w { replies = rest })
        else (
          poll (timeout * 5) r.polls,
          record w {
            row = if r.cancel then cancel_row w.now w.row else w.row;
            now = w.now + r.took;
            replies = rest;
            sent = w.sent ++ record { operation = op; payload = payload; under = w.held } ∷ [];
          },
        )
  ]
