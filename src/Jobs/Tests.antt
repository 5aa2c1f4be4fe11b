-- ===== src/Jobs/Tests.antt =====
-- The theorems on jobs at concrete rows.
use node_pilot.Common.{ℕ, ◌≡◌, refl, ◌⊎◌, ◌↔◌, true, none, some, List, [], ◌∷◌, ◌≤◌, ◌+◌}
use node_pilot.Common.Exec.{is_ok}
use node_pilot.Jobs.Model.{queued, running, success, failed, Job, vm_start}
use node_pilot.Jobs.Services.{create_job, transition}
use node_pilot.Jobs.Machine.{
  IsMove, transition_moves, Action, act, move, cancel, history, terminal_stays, changes,
  changes_bounded,
}
use node_pilot.Jobs.Invariant.{IsValid, history-IsValid}

abbrev fresh : Job
fresh = create_job vm_start "VirtualMachine" "1" 1 none none "" 600

abbrev ended : Job
ended = record fresh { status = success; started_at = some 3; finished_at = some 9; progress = 100 }

-- A run that a user tries to cancel after it ended, from an object read before.
abbrev calls : List (ℕ × Action)
calls =
    (1, move running none none)
    ∷ (2, move success none none)
    ∷ (3, cancel fresh)
    ∷ (4, move failed none none)
    ∷ []

transition_moves_example :
    (is_ok (transition 5 success none none fresh) ≡ true)
    ↔ (IsMove queued success ⊎ (queued ≡ success))
transition_moves_example = transition_moves 5 success none none fresh

terminal_stays_example : (history calls ended).status ≡ success
terminal_stays_example = terminal_stays calls ended refl

changes_bounded_example : changes calls fresh + 0 ≤ 3
changes_bounded_example = changes_bounded calls fresh

history-IsValid_example :
    IsValid (history calls (create_job vm_start "VirtualMachine" "1" 1 none none "" 600))
history-IsValid_example = history-IsValid vm_start "VirtualMachine" "1" 1 none none "" 600 calls

run_to_success : (history calls fresh).status ≡ success
unfolding history act
run_to_success = refl
