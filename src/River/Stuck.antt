-- ===== src/River/Stuck.antt =====
-- wm/river_wm.c: a manage sequence whose cohort could not be opened.
use neoswc.Prelude.{
  ℕ, ◌≡◌, refl, Bool, true, false, not, ◌&&◌, none, some, List, [], ◌∷◌, arith, if_ind, option_ind,
  subst, sym,
}
use neoswc.Prelude.Int.{ℤ}
use neoswc.Transaction.{transaction_create}
use neoswc.Cohort
use neoswc.Window.{Rectangle}
use neoswc.Cohort.{
  Cohort, Outcome, transaction_begin, transaction_commit, transaction_present, transaction_expire,
  set_geometry, set_size, set_position, Call, begin_call, present_call, commit_call, expire_call,
  ack_call, buffer_call, stacked_call, tiled_call, position_call, size_call, leave_call, move_call,
  move_view, present_cohort, commit_buffer, set_stacked, set_tiled, window_ack_configure,
  leave_transaction, first_call,
}
use neoswc.River.State.{Wm, Env, RiverWindow, manage, settle, is_manage}
use neoswc.River.Sequence.{
  below, skipped, configure_window, configure_windows, manager_manage_finish,
}
use neoswc.River.Steps.{step, cohort_event}

-- An outcome that calls nobody and has no barrier
Shut : Outcome → Type 0
Shut o = (o.1 ≡ none) × (o.0.barrier ≡ none)

set_size-Shut :
    (allocated : Bool) (c : Cohort) (i width height : ℕ)
    → c.barrier ≡ none
    → Shut (set_size allocated c i width height)
unfolding set_size Shut
set_size-Shut allocated c i width height e = ground (arith, e)

set_position-Shut :
    (allocated : Bool) (c : Cohort) (i : ℕ) (x y : ℤ)
    → c.barrier ≡ none
    → Shut (set_position allocated c i x y)
unfolding set_position Shut
set_position-Shut allocated c i x y e = ground (arith, e)

set_geometry-Shut :
    (allocated : Bool) (c : Cohort) (i : ℕ) (g : Rectangle)
    → c.barrier ≡ none
    → Shut (set_geometry allocated c i g)
unfolding set_geometry Shut
set_geometry-Shut allocated c i g e =
    let sized = set_size allocated c i g.width g.height in
    let (quiet, shut) = set_size-Shut allocated c i g.width g.height e in
    let (quiet', shut') = set_position-Shut allocated sized.0 i g.x g.y shut in
    (
      subst (λ d. first_call d (set_position allocated sized.0 i g.x g.y).1 ≡ none) (sym quiet)
          quiet',
      shut',
    )

begin-Shut :
    (loop allocated : Bool) (c : Cohort)
    → (loop && allocated) ≡ false
    → c.barrier ≡ none
    → (transaction_begin loop allocated c).0.barrier ≡ none
unfolding transaction_begin transaction_create present_cohort
begin-Shut loop allocated c h e = ground (arith, h, e)

abbrev pub is_begin : Call → Bool
is_begin (begin_call loop allocated) = true
is_begin _ = false

-- The settle phase with no cohort that could end it
pub record Stuck (wm : Wm) : Type 0 where
  pub in_settle : wm.phase ≡ settle
  pub shut : wm.cohort.barrier ≡ none

below-Stuck : (wm : Wm) (o : Outcome) → Shut o → Stuck wm → Stuck (below wm o)
unfolding below Shut
below-Stuck wm (c, none) (q, e) s = record { in_settle = s.in_settle; shut = e }
below-Stuck wm (c, some b) (q, e) s = absurd (ground (arith, q))

configure_window-Stuck :
    (env : Env) (w : RiverWindow) (wm : Wm) → Stuck wm → Stuck (configure_window env w wm)
unfolding configure_window
configure_window-Stuck env w wm s =
    option_ind Stuck w.swc (λ _. s)
      λ k _.
        if_ind Stuck (skipped w) (λ _. s)
          λ _. below-Stuck wm _ (set_geometry-Shut (env.joined k) wm.cohort k _ s.shut) s

configure_windows-Stuck :
    (env : Env) (ws : List RiverWindow) (wm : Wm) → Stuck wm → Stuck (configure_windows env ws wm)
unfolding configure_windows
configure_windows-Stuck env [] wm s = s
configure_windows-Stuck env (w ∷ ws) wm s =
    configure_windows-Stuck env ws _ (configure_window-Stuck env w wm s)

commit-Shut :
    (timer_added : Bool) (c : Cohort) (ms : ℕ) (done : Bool)
    → c.barrier ≡ none
    → Shut (transaction_commit timer_added c ms done)
unfolding transaction_commit Shut
commit-Shut timer_added c ms done e = ground (arith, e)

finish-Stuck :
    (env : Env) (wm : Wm)
    → wm.phase ≡ manage
    → wm.cohort.barrier ≡ none
    → (env.loop && env.allocated) ≡ false
    → Stuck (manager_manage_finish env wm)
unfolding manager_manage_finish
finish-Stuck env wm phase closed failed =
    if_ind Stuck (not (is_manage wm.phase)) (λ h. absurd (ground (arith, phase, h)))
      λ _.
        let s = configure_windows-Stuck env wm.windows _ (record {
          in_settle = refl;
          shut = begin-Shut env.loop env.allocated wm.cohort failed closed;
        }) in
        below-Stuck _ _ (commit-Shut env.timer_added _ _ true s.shut) s

step-Shut : (c : Cohort) (k : Call) → is_begin k ≡ false → c.barrier ≡ none → Shut (Cohort.step c k)
unfolding Shut Cohort.step transaction_present present_cohort transaction_expire commit_buffer
    set_stacked set_tiled window_ack_configure leave_transaction move_view
step-Shut c (begin_call loop allocated) b e = absurd (ground (arith, b))
step-Shut c present_call b e = ground (arith, e)
step-Shut c (commit_call timer_added ms done) b e = commit-Shut timer_added c ms done e
step-Shut c expire_call b e = ground (arith, e)
step-Shut c (ack_call i) b e = ground (arith, e)
step-Shut c (buffer_call i width height) b e = (refl, e)
step-Shut c (stacked_call i) b e = (refl, e)
step-Shut c (tiled_call i) b e = (refl, e)
step-Shut c (position_call allocated i x y) b e = set_position-Shut allocated c i x y e
step-Shut c (size_call allocated i width height) b e = set_size-Shut allocated c i width height e
step-Shut c (leave_call i) b e = ground (arith, e)
step-Shut c (move_call i x y) b e = (refl, e)

-- What the windows do one after another, none of it opening a cohort
unfoldable pub none_begins : List Call → Bool
none_begins [] = true
none_begins (k ∷ ks) = not (is_begin k) && none_begins ks

pub afterwards : Env → Wm → List Call → Wm
afterwards env wm [] = wm
afterwards env wm (k ∷ ks) = afterwards env (step env wm (cohort_event k)) ks

afterwards-Stuck :
    (env : Env) (wm : Wm) (ks : List Call)
    → none_begins ks ≡ true
    → Stuck wm
    → Stuck (afterwards env wm ks)
unfolding none_begins afterwards step
afterwards-Stuck env wm [] h s = s
afterwards-Stuck env wm (k ∷ ks) h s =
    afterwards-Stuck env (step env wm (cohort_event k)) ks (ground (arith, h))
      (below-Stuck wm _ (step-Shut wm.cohort k (ground (arith, h)) s.shut) s)

-- If the cohort of a manage sequence cannot be opened, for want of memory or of an event loop, then
-- `manage_finish` leaves the settle phase with no cohort behind, and whatever the windows do after
-- that, short of opening a cohort, no render sequence begins: the phase stays settle.
pub manage_finish-Stuck :
    (env : Env) (wm : Wm) (ks : List Call)
    → wm.phase ≡ manage
    → wm.cohort.barrier ≡ none
    → (env.loop && env.allocated) ≡ false
    → none_begins ks ≡ true
    → Stuck (afterwards env (manager_manage_finish env wm) ks)
manage_finish-Stuck env wm ks phase closed failed quiet =
    afterwards-Stuck env _ ks quiet (finish-Stuck env wm phase closed failed)
