-- ===== src/Nodes/Sweep.antt =====
-- How often the sweep reports that a node went offline.
use node_pilot.Common.{
  ℕ, suc, ◌≤◌, ◌≡◌, refl, inl, inr, Bool, true, false, List, [], ◌∷◌, All, any, arith,
  if◌then◌else◌, Bool-cases,
}
use node_pilot.Nodes.Model.{Node, is_offline, effective_status}
use node_pilot.Nodes.Services.{OfflineEvent, since, already_notified, mark_offline_if_stale}

-- Sweeps over one node, whose row stays as it is, at a list of times: how many reported it, and
-- the events in the end.
unfoldable pub reports : ℕ → Node → List ℕ → List OfflineEvent → ℕ
unfolding mark_offline_if_stale
reports threshold node [] events = 0
reports threshold node (now ∷ times) events =
    let (marked, events') = mark_offline_if_stale now threshold node events in
    let rest = reports threshold node times events' in if marked then suc rest else rest

abbrev pub is_stale : ℕ → Node → ℕ → Bool
is_stale threshold node now = is_offline (effective_status now threshold node)

reports_none :
    (threshold : ℕ) (node : Node) (times : List ℕ) (events : List OfflineEvent)
    → already_notified node events ≡ true
    → reports threshold node times events ≡ 0
unfolding reports
reports_none threshold node [] events h = refl
reports_none threshold node (now ∷ times) events h =
    ground (arith, reports_none threshold node times events h)

notified_now :
    (node : Node) (now : ℕ) (events : List OfflineEvent)
    → since node ≤ now
    → already_notified node (record { node = node.uuid; created_at = now } ∷ events) ≡ true
unfolding already_notified
notified_now node now events h = ground arith

-- As long as a node sends no heartbeat, any number of sweeps reports it once if one of them finds
-- it offline, and never if none does, provided that no report is there yet and that no sweep is
-- dated before the last heartbeat (or the row's creation, when there was none).
pub reported_once :
    (threshold : ℕ) (node : Node) (times : List ℕ) (events : List OfflineEvent)
    → already_notified node events ≡ false
    → All (λ now. since node ≤ now) times
    → reports threshold node times events ≡ (if any (is_stale threshold node) times then 1 else 0)
unfolding reports
reported_once threshold node [] events h late = refl
reported_once threshold node (now ∷ times) events h late =
    elim (Bool-cases (is_stale threshold node now)) [
      | inl stale ↦ ground (
        arith,
        stale,
        h,
        reports_none threshold node times (record { node = node.uuid; created_at = now } ∷ events)
            (notified_now node now events late.0),
      )
      | inr fresh ↦ ground (arith, fresh, reported_once threshold node times events h late.1)
    ]
