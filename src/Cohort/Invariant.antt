-- ===== src/Cohort/Invariant.antt =====
-- What ties the windows to the open transaction, and that every step keeps it.
use neoswc.Prelude.{
  ℕ, ◌≡◌, refl, Bool, true, false, ◌||◌, Option, none, some, List, [], arith, suc, ◌<◌, ◌^◌, length,
  subst, ◌∙◌,
}
use neoswc.Transaction
use neoswc.Transaction.{
  Participant, Transaction, find, unlink, mark, acked, transaction_create, create, add, remove, ack,
  commit, timeout, finish, Op, add_op, remove_op, ack_op, commit_op, timeout_op, is_some,
}
use neoswc.Transaction.Invariant
use neoswc.Transaction.Invariant.{is_armed, create-Inv}
use neoswc.Transaction.Completion.{step-calls}
use neoswc.Window.{Window}
use neoswc.Cohort.{
  Cohort, update, drop_id, settle, transaction_done, Call, expire_call, position_call, size_call,
}
use neoswc.Cohort.Members.{mem, keys, keys-unlink, keys-mark, mem-push_all, each-park}

keys-commit :
    (timer_added : Bool) (t : Transaction) (ms : ℕ)
    → keys (commit timer_added t ms).0.participants ≡ keys t.participants
unfolding commit finish
keys-commit timer_added t ms = ground arith

keys-timeout : (t : Transaction) → keys (timeout t).0.participants ≡ keys t.participants
unfolding timeout finish
keys-timeout t = ground arith

pub keys-ack : (t : Transaction) (i s : ℕ) → keys (ack t i s).0.participants ≡ keys t.participants
unfolding ack finish
keys-ack t i s = ground (arith, keys-mark i t.participants)

pub keys-remove :
    (t : Transaction) (i : ℕ) (p : Participant)
    → find i t.participants ≡ some p
    → keys (remove t i).0.participants ≡ drop_id i (keys t.participants)
unfolding remove finish
keys-remove t i p e = ground (arith, keys-unlink i t.participants)

-- A transaction is the one that the members wait on.
pub record Waiting (members : List ℕ) (t : Transaction) : Type 0 where
  pub sound : Invariant.Inv t
  pub going : t.complete ≡ false
  pub handled : t.handler ≡ true
  pub enrolled_keys : keys t.participants ≡ members

abbrev pub Barrier : Option Transaction → List ℕ → List ℕ → Type 0
Barrier none members parked = members ≡ []
Barrier (some t) members parked = Waiting members t × (parked ≡ [])

pub record Inv (c : Cohort) : Type 0 where
  pub barrier : Barrier c.barrier c.members c.parked
  pub enrolled : (i : ℕ) → (c.window i).in_cohort ≡ mem i c.members
  pub frozen : (i : ℕ) → (c.window i).held ≡ true → (mem i c.members || mem i c.parked) ≡ true
  pub members_held : (i : ℕ) → mem i c.members ≡ true → (c.window i).held ≡ true
  pub fresh : c.initialized ≡ false → (c.parked ≡ []) × (c.barrier ≡ none)

-- A window that stays in or out of the cohort, and is not newly held, may change otherwise.
abbrev pub Kept : Window → Window → Type 0
Kept w w' = (w'.in_cohort ≡ w.in_cohort) × (w'.held ≡ w.held)

pub update-Inv :
    (c : Cohort) (i : ℕ) (w : Window) → Kept (c.window i) w → Inv c → Inv (update c i w)
update-Inv c i w k v = record {
  barrier = v.barrier;
  enrolled = λ j. ground (arith, v.enrolled j, v.enrolled i);
  frozen = λ j. ground (arith, v.frozen j, v.frozen i);
  members_held = λ j. ground (arith, v.members_held j, v.members_held i);
  fresh = v.fresh;
}

-- A state that an operation on the transaction is about to settle.
pub record Settling (c : Cohort) (r : Transaction × Option Bool) : Type 0 where
  pub sound : Invariant.Inv r.0
  pub handled : r.0.handler ≡ true
  pub going : r.1 ≡ none → r.0.complete ≡ false
  pub enrolled_keys : keys r.0.participants ≡ c.members
  pub unparked : c.parked ≡ []
  pub started : c.initialized ≡ true
  pub enrolled : (i : ℕ) → (c.window i).in_cohort ≡ mem i c.members
  pub frozen : (i : ℕ) → (c.window i).held ≡ true → mem i c.members ≡ true
  pub members_held : (i : ℕ) → mem i c.members ≡ true → (c.window i).held ≡ true

pub settle-Inv : (c : Cohort) (r : Transaction × Option Bool) → Settling c r → Inv (settle c r).0
unfolding settle transaction_done
settle-Inv c (t, none) s = record {
  barrier = (
    record {
      sound = s.sound;
      going = s.going refl;
      handled = s.handled;
      enrolled_keys = s.enrolled_keys;
    },
    s.unparked,
  );
  enrolled = s.enrolled;
  frozen = λ i. ground (arith, s.frozen i);
  members_held = s.members_held;
  fresh = λ h. ground (arith, s.started);
}
settle-Inv c (t, some b) s = record {
  barrier = refl;
  enrolled = λ i. ground (arith, each-park t i c.members c.window, s.enrolled i);
  frozen = λ i.
      ground
        (arith, each-park t i c.members c.window, s.frozen i, mem-push_all i c.members c.parked);
  members_held = λ i. ground arith;
  fresh = λ h. ground (arith, s.started);
}

-- What the surroundings guarantee for a call: room for one more participant, and a timer that fires
-- only when it is armed.
abbrev pub Room : Option Transaction → Type 0
Room none = Unit {0}
Room (some t) = suc (length t.participants) < 2 ^ 64

abbrev pub Armed : Option Transaction → Type 0
Armed none = Unit {0}
Armed (some t) = is_armed t.timer ≡ true

abbrev pub Enabled : Cohort → Call → Type 0
Enabled c expire_call = Armed c.barrier
Enabled c (position_call allocated i x y) = Room c.barrier
Enabled c (size_call allocated i width height) = Room c.barrier
Enabled c _ = Unit {0}

module _ {c : Cohort} {t : Transaction} (v : Inv c) (e : c.barrier ≡ some t) where
  pub waiting : Waiting c.members t × (c.parked ≡ [])
  waiting = subst (λ b. Barrier b c.members c.parked) e v.barrier

  pub started : c.initialized ≡ true
  started = ground (arith, v.fresh)

  -- An operation that enrols nobody and withdraws nobody, on windows that only differ elsewhere.
  pub settling :
      (o : Op) (d : Cohort)
      → Invariant.Enabled t o
      → keys (Transaction.step t o).0.participants ≡ d.members
      → d.parked ≡ []
      → d.initialized ≡ true
      → ((i : ℕ) → (d.window i).in_cohort ≡ mem i d.members)
      → ((i : ℕ) → (d.window i).held ≡ true → mem i d.members ≡ true)
      → ((i : ℕ) → mem i d.members ≡ true → (d.window i).held ≡ true)
      → Settling d (Transaction.step t o)
  settling o d en ks ps st ns fs hs = record {
    sound = Invariant.step_op-Inv t o en waiting.0.sound;
    handled = (step-calls t o waiting.0.handled).0;
    going = λ quiet. ground (arith, waiting.0.going, quiet, (step-calls t o waiting.0.handled).1);
    enrolled_keys = ks;
    unparked = ps;
    started = st;
    enrolled = ns;
    frozen = fs;
    members_held = hs;
  }

  pub frozen_member : (i : ℕ) → (c.window i).held ≡ true → mem i c.members ≡ true
  frozen_member i h = ground (arith, v.frozen i, waiting.1)

  pub commit_settles :
      (timer_added done : Bool) (ms : ℕ)
      → Inv (settle (record c { done_cb = done }) (commit timer_added t ms)).0
  unfolding Transaction.step
  commit_settles timer_added done ms =
      settle-Inv (record c { done_cb = done }) (commit timer_added t ms)
        (settling (commit_op timer_added ms) (record c { done_cb = done }) tt
          (keys-commit timer_added t ms ∙ waiting.0.enrolled_keys) waiting.1 started v.enrolled
          frozen_member v.members_held)

  pub expire_settles : is_armed t.timer ≡ true → Inv (settle c (timeout t)).0
  unfolding Transaction.step
  expire_settles a = settle-Inv c (timeout t) (
      settling timeout_op c a (keys-timeout t ∙ waiting.0.enrolled_keys) waiting.1 started
        v.enrolled frozen_member v.members_held)

  pub ack_settles : (i s : ℕ) → Inv (settle c (ack t i s)).0
  unfolding Transaction.step
  ack_settles i s = settle-Inv c (ack t i s) (
      settling (ack_op i s) c tt (keys-ack t i s ∙ waiting.0.enrolled_keys) waiting.1 started
        v.enrolled frozen_member v.members_held)
