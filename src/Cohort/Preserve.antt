-- ===== src/Cohort/Preserve.antt =====
-- A window that leaves, and the invariant over any sequence of calls.
use neoswc.Prelude.{
  ℕ, ◌≡◌, refl, false, not, none, some, [], arith, ◌==◌, if◌then◌else◌, inl, inr, Option-cases,
  if_ind, option_ind, ◌∙◌, ap, subst, sym, true,
}
use neoswc.Transaction
use neoswc.Transaction.{Participant, Transaction, find, remove, Op, remove_op}
use neoswc.Window.{Window, surface_release_render}
use neoswc.Cohort.{
  Cohort, update, drop_id, settle, leave_transaction, Call, step, transaction_present, begin_call,
  present_call, commit_call, expire_call, ack_call, buffer_call, stacked_call, tiled_call,
  position_call, size_call, leave_call, move_call, Outcome,
}
use neoswc.Cohort.Members.{
  mem, mem-keys-none, mem-drop_keys, drop_id_absent, mem-drop_id_ne, release_kept,
}
use neoswc.Cohort.Invariant.{
  Barrier, Inv, settle-Inv, Enabled, waiting, settling, frozen_member, started, keys-remove,
}
use neoswc.Cohort.Steps.{
  InvAfter, begin_call-Inv, present_cohort-Inv, commit_call-Inv, expire_call-Inv, ack_call-Inv,
  buffer_call-Inv, stacked_call-Inv, tiled_call-Inv, position_call-Inv, size_call-Inv,
  move_call-Inv,
}

-- The cohort without window `i`, which no longer has a transaction.
abbrev left : Cohort → ℕ → Cohort
left c i =
    update (record c { members = drop_id i c.members; parked = drop_id i c.parked }) i
      (surface_release_render (record (c.window i) { in_cohort = false }))

module _ {c : Cohort} {t : Transaction} (v : Inv c) (e : c.barrier ≡ some t) (i : ℕ) where
  remaining : (j : ℕ) → mem j (drop_id i c.members) ≡ (if i == j then false else mem j c.members)
  remaining j =
      subst (λ is. mem j (drop_id i is) ≡ (if i == j then false else mem j is))
        (waiting v e).0.enrolled_keys
        (mem-drop_keys i j t.participants (waiting v e).0.sound.distinct)

  leave_settles :
      (p : Participant) → find i t.participants ≡ some p → Inv (settle (left c i) (remove t i)).0
  unfolding Transaction.step
  leave_settles p found =
      let w : Window = record (c.window i) { in_cohort = false } in
      settle-Inv (left c i) (remove t i) (
        settling v e (remove_op i) (left c i) tt
          (keys-remove t i p found ∙ ap (drop_id i) (waiting v e).0.enrolled_keys)
          (ap (drop_id i) (waiting v e).1 ∙ drop_id_absent i [] refl) (started v e)
          (λ j. ground (arith, remaining j, v.enrolled j, release_kept w))
          (λ j h. ground (arith, remaining j, frozen_member v e j, release_kept w))
          (λ j h. ground (arith, remaining j, v.members_held j)))

leave_call-Inv :
    (c : Cohort) (i : ℕ) → mem i c.parked ≡ false → Inv c → InvAfter (leave_transaction c i)
unfolding leave_transaction
leave_call-Inv c i absent v =
    if_ind InvAfter (not (c.window i).in_cohort)
      (λ out.
        rw
          (
            drop_id_absent i c.members (ground (arith, v.enrolled i)),
            drop_id_absent i c.parked absent,
          )
          v)
      λ member.
        option_ind InvAfter c.barrier (λ e. absurd (ground (arith, v.enrolled i, no_members e)))
          λ t e. elim (Option-cases (find i t.participants)) [
            | inl missing ↦ absurd (
                ground (
                  arith,
                  v.enrolled i,
                  mem-keys-none i t.participants missing,
                  (waiting v e).0.enrolled_keys,
                ))
            | inr (p, found) ↦ leave_settles v e i p found
          ]
  where
    no_members : c.barrier ≡ none → c.members ≡ []
    no_members e = subst (λ b. Barrier b c.members c.parked) e v.barrier

-- The surface of a window as it is without the hold that a cohort had on it
abbrev unheld : Cohort → ℕ → Cohort
unheld c i = update c i (record (c.window i) { held = false })

-- What the departure of a window that awaits present leaves to be done
abbrev pub mended : Cohort → Call → Cohort → Cohort
mended c (leave_call i) d = if mem i c.parked then unheld d i else d
mended c _ d = d

no_members : (c : Cohort) → Inv c → c.barrier ≡ none → c.members ≡ []
no_members c v e = subst (λ b. Barrier b c.members c.parked) e v.barrier

-- While windows await present, no barrier is open.
parked_closed :
    (c : Cohort) (i : ℕ)
    → Inv c
    → mem i c.parked ≡ true
    → (c.barrier ≡ none) × ((c.window i).in_cohort ≡ false)
parked_closed c i v h = elim (Option-cases c.barrier) [
  | inl e ↦ (e, ground (arith, v.enrolled i, no_members c v e))
  | inr (t, e) ↦ absurd (ground (arith, h, (waiting v e).1))
]

unheld-Inv :
    (c : Cohort) (i : ℕ)
    → Inv c
    → mem i c.parked ≡ true
    → Inv (unheld (record c { members = drop_id i c.members; parked = drop_id i c.parked }) i)
unheld-Inv c i v h =
    let (e, out) = parked_closed c i v h in
    let none_left = no_members c v e in
    record {
      barrier =
          subst (λ b. Barrier b (drop_id i c.members) (drop_id i c.parked)) (sym e)
            (drop_id_absent i c.members (ground (arith, none_left)) ∙ none_left);
      enrolled = λ j.
          ground (arith, v.enrolled j, out, drop_id_absent i c.members (ground (arith, none_left)));
      frozen = λ j. ground (
        arith,
        v.frozen j,
        drop_id_absent i c.members (ground (arith, none_left)),
        mem-drop_id_ne i j c.parked,
      );
      members_held =
          λ j. ground (arith, none_left, drop_id_absent i c.members (ground (arith, none_left)));
      fresh = λ f. absurd (ground (arith, v.fresh f, h));
    }

parked_leave-Inv :
    (c : Cohort) (i : ℕ) → Inv c → mem i c.parked ≡ true → Inv (unheld (leave_transaction c i).0 i)
unfolding leave_transaction
parked_leave-Inv c i v h =
    if_ind (λ (o : Outcome). Inv (unheld o.0 i)) (not (c.window i).in_cohort)
      (λ _. unheld-Inv c i v h) (λ m. absurd (ground (arith, m, (parked_closed c i v h).1)))

-- Each of these steps keeps the invariant of the cohort, where the timer fires only when it is armed,
-- and the participants stay below 2 ^ 64: a begin, commit, present or expiry of the cohort, and an
-- acknowledgement, a buffer, a position, a size, stacked or tiled mode, a departure or a move of the
-- view of any window. The invariant: the members are exactly the windows that have a transaction, and
-- exactly the participants of the barrier; a surface is held back only for a member or for a window
-- that awaits present; and nobody awaits present while a barrier is open. There is one exception: when
-- a window that awaits present leaves the cohort, its surface stays held back, and the invariant holds
-- again, all of it, once that hold is lifted.
pub step_call-Inv : (c : Cohort) (k : Call) → Enabled c k → Inv c → Inv (mended c k (step c k).0)
unfolding step transaction_present
step_call-Inv c (begin_call loop allocated) en v = begin_call-Inv loop allocated c v
step_call-Inv c present_call en v = if_ind Inv c.initialized (λ h. present_cohort-Inv c v) (λ h. v)
step_call-Inv c (commit_call timer_added ms done) en v = commit_call-Inv timer_added c ms done v
step_call-Inv c expire_call en v = expire_call-Inv c en v
step_call-Inv c (ack_call i) en v = ack_call-Inv c i v
step_call-Inv c (buffer_call i width height) en v = buffer_call-Inv c i width height v
step_call-Inv c (stacked_call i) en v = stacked_call-Inv c i v
step_call-Inv c (tiled_call i) en v = tiled_call-Inv c i v
step_call-Inv c (position_call allocated i x y) en v = position_call-Inv allocated c i x y en v
step_call-Inv c (size_call allocated i width height) en v =
    size_call-Inv allocated c i width height en v
step_call-Inv c (leave_call i) en v =
    if_ind Inv (mem i c.parked) (λ h. parked_leave-Inv c i v h) (λ h. leave_call-Inv c i h v)
step_call-Inv c (move_call i x y) en v = move_call-Inv c i x y v
