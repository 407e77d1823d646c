-- ===== src/Transaction/Completion.antt =====
-- When and how often the completion handler of a transaction is called.
use neoswc.Prelude.{
  ℕ, ◌+◌, ◌≡◌, refl, Bool, true, false, Option, none, some, List, [], ◌∷◌, arith, length,
  if◌then◌else◌,
}
use neoswc.Transaction.{
  Transaction, create, add, remove, ack, commit, timeout, finish, Op, add_op, remove_op, ack_op,
  commit_op, timeout_op, step, run, log,
}

abbrev pub flag : Bool → ℕ
flag true = 1
flag false = 0

abbrev pub calls : Option Bool → ℕ
calls none = 0
calls (some b) = 1

-- A step calls a handler that is there exactly when it sets `complete`.
pub step-calls :
    (t : Transaction) (o : Op)
    → t.handler ≡ true
    → ((step t o).0.handler ≡ true)
      × (calls (step t o).1 + flag t.complete ≡ flag (step t o).0.complete)
unfolding step add remove ack commit timeout finish
step-calls t (add_op allocated key serial) h = ground arith
step-calls t (remove_op key) h = ground arith
step-calls t (ack_op key serial) h = ground arith
step-calls t (commit_op timer_added ms) h = ground arith
step-calls t timeout_op h = ground arith

length-log : (c : Option Bool) (l : List Bool) → length (log c l) ≡ calls c + length l
length-log none l = omega arith
length-log (some b) l = omega arith

pub run-calls :
    (t : Transaction) (os : List Op)
    → t.handler ≡ true
    → length (run t os).1 + flag t.complete ≡ flag (run t os).0.complete
unfolding run
run-calls t [] h = omega arith
run-calls t (o ∷ os) h =
    let (h', e) = step-calls t o h in
    omega (arith, length-log (step t o).1 (run (step t o).0 os).1, run-calls (step t o).0 os h', e)

-- Over any sequence of operations on a new transaction, timer expiries included and allowed or
-- not, the completion handler is called exactly once if the transaction is complete at the end,
-- and not at all if it is not.
pub run-create_once :
    (os : List Op)
    → length (run (create true) os).1 ≡ (if (run (create true) os).0.complete then 1 else 0)
unfolding create
run-create_once os = ground (arith, run-calls (create true) os refl)
