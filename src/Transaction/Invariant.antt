-- ===== src/Transaction/Invariant.antt =====
-- What holds of a transaction between two operations, and that each keeps it.
use neoswc.Prelude.{
  ℕ, suc, ◌^◌, ◌<◌, ◌≡◌, ◌≢◌, inl, inr, Bool, true, false, arith, length, Option-cases,
}
use neoswc.Transaction.{
  Timer, absent, armed, Transaction, create, add, remove, ack, commit, timeout, finish, find, Op,
  add_op, remove_op, ack_op, commit_op, timeout_op, step,
}
use neoswc.Transaction.Members.{
  outstanding, Distinct, outstanding-le, length-unlink, outstanding-unlink, length-mark,
  outstanding-mark, unlink-Distinct, mark-Distinct,
}

abbrev pub is_armed : Timer → Bool
is_armed (armed ms) = true
is_armed _ = false

pub record Inv (t : Transaction) : Type 0 where
  pub distinct : Distinct t.participants
  pub room : length t.participants < 2 ^ 64
  pub size_exact : t.size ≡ length t.participants
  pub pending_exact : t.pending ≡ outstanding t.participants
  pub complete_committed : t.complete ≡ true → t.committed ≡ true
  pub complete_disarmed : t.complete ≡ true → is_armed t.timer ≡ false
  pub open_untimed : t.committed ≡ false → t.timer ≡ absent
  pub waiting_pending :
      t.committed ≡ true → t.complete ≡ false → (t.pending ≢ 0) × (t.timer ≢ absent)

-- What the surroundings of a transaction guarantee for the next step: `malloc` finds no room for
-- more participants than addresses, and the event loop only fires a timer that is armed.
abbrev pub Enabled : Transaction → Op → Type 0
Enabled t (add_op allocated key serial) = suc (length t.participants) < 2 ^ 64
Enabled t timeout_op = is_armed t.timer ≡ true
Enabled t _ = Unit {0}

pub create-Inv : (handler : Bool) → Inv (create handler)
unfolding create
create-Inv handler = ground arith

add-Inv :
    (allocated : Bool) (t : Transaction) (key serial : ℕ)
    → suc (length t.participants) < 2 ^ 64
    → Inv t
    → Inv (add allocated t key serial).0
unfolding add
add-Inv allocated t key serial room v = ground (arith, outstanding-le t.participants)

remove-Inv : (t : Transaction) (key : ℕ) → Inv t → Inv (remove t key).0
unfolding remove finish
remove-Inv t key v = elim (Option-cases (find key t.participants)) [
  | inl e ↦ rw (e, remove) v
  | inr (p, e) ↦ ground (
    arith,
    e,
    length-unlink key t.participants p e,
    outstanding-unlink key t.participants p e,
    outstanding-le t.participants,
    unlink-Distinct key t.participants v.distinct,
  )
]

ack-Inv : (t : Transaction) (key serial : ℕ) → Inv t → Inv (ack t key serial).0
unfolding ack finish
ack-Inv t key serial v = elim (Option-cases (find key t.participants)) [
  | inl e ↦ rw (e, ack) v
  | inr (p, e) ↦ ground (
    arith,
    e,
    length-mark key t.participants,
    outstanding-mark key t.participants p e,
    outstanding-le t.participants,
    mark-Distinct key t.participants v.distinct,
  )
]

commit-Inv :
    (timer_added : Bool) (t : Transaction) (ms : ℕ) → Inv t → Inv (commit timer_added t ms).0
unfolding commit finish
commit-Inv timer_added t ms v = ground arith

timeout-Inv : (t : Transaction) → is_armed t.timer ≡ true → Inv t → Inv (timeout t).0
unfolding timeout finish
timeout-Inv t a v = ground arith

-- Every operation that its surroundings allow keeps the invariant.
pub step_op-Inv : (t : Transaction) (o : Op) → Enabled t o → Inv t → Inv (step t o).0
unfolding step
step_op-Inv t (add_op allocated key serial) en v = add-Inv allocated t key serial en v
step_op-Inv t (remove_op key) en v = remove-Inv t key v
step_op-Inv t (ack_op key serial) en v = ack-Inv t key serial v
step_op-Inv t (commit_op timer_added ms) en v = commit-Inv timer_added t ms v
step_op-Inv t timeout_op en v = timeout-Inv t en v
