-- ===== src/Transaction/Tests.antt =====
-- Runs of the barrier, and the theorems at concrete inputs.
use neoswc.Prelude.{ℕ, ◌≡◌, refl, true, false, List, [], ◌∷◌, arith, length, if◌then◌else◌}
use neoswc.Transaction.{
  Participant, Transaction, armed, absent, create, Op, add_op, remove_op, ack_op, commit_op,
  timeout_op, step, run, ack, add, remove, commit, timeout, finish, find, mark, unlink,
}
use neoswc.Transaction.Invariant.{Inv}
use neoswc.Transaction.Completion.{run-create_once}
use neoswc.Transaction.Liveness.{acks, run-acks_complete}

abbrev waiting_for : ℕ → ℕ → Participant
waiting_for key serial = record { key = key; serial = serial; acked = false }

-- Two windows enrolled, nothing acknowledged yet.
abbrev enrolled : Transaction
enrolled = record {
  handler = true;
  participants = waiting_for 8 2 ∷ waiting_for 7 1 ∷ [];
  timer = absent;
  size = 2;
  pending = 2;
  committed = false;
  complete = false;
}

-- The same behind a commit with 100 ms.
abbrev waiting : Transaction
waiting = record enrolled { timer = armed 100; committed = true }

enrolled-Inv : Inv enrolled
unfolding find
enrolled-Inv = ground arith

waiting-Inv : Inv waiting
unfolding find
waiting-Inv = ground arith

abbrev story : List Op
story =
    add_op true 7 1
    ∷ add_op true 8 2
    ∷ add_op true 7 3
    ∷ commit_op true 100
    ∷ ack_op 7 9
    ∷ ack_op 7 1
    ∷ remove_op 8
    ∷ ack_op 7 1
    ∷ timeout_op
    ∷ []

-- The stale ack is passed over, the closing window lets the cohort go, and the late expiry is no
-- second completion.
story_runs : (run (create true) story).1 ≡ false ∷ []
unfolding run step create add remove ack commit timeout finish find unlink mark
story_runs = refl

stragglers_time_out :
    (run enrolled (commit_op true 100 ∷ ack_op 7 1 ∷ timeout_op ∷ [])).1 ≡ true ∷ []
unfolding run step ack commit timeout finish find mark
stragglers_time_out = refl

run-create_once_example :
    length (run (create true) story).1 ≡ (if (run (create true) story).0.complete then 1 else 0)
run-create_once_example = run-create_once story

run-acks_complete_example :
    ((run waiting (acks waiting.participants)).0.complete ≡ true)
    × (waiting.handler ≡ true
        → waiting.complete ≡ false
        → length (run waiting (acks waiting.participants)).1 ≡ 1)
run-acks_complete_example = run-acks_complete waiting waiting-Inv refl
