-- ===== src/River/Settle.antt =====
-- wm/river_wm.c: from the end of a manage sequence to the render sequence.
use neoswc.Prelude.{
  ◌≡◌, refl, ◌⊎◌, inl, inr, Bool, true, false, not, none, some, List, [], ◌∷◌, arith, if_ind,
  option_ind,
}
use neoswc.Transaction.{is_some, armed}
use neoswc.Cohort
use neoswc.Cohort.{
  Cohort, Outcome, transaction_begin, transaction_commit, set_geometry, transaction_expire, Call,
  expire_call,
}
use neoswc.Cohort.Gather.{
  Open, StaysOpen, set_geometry-StaysOpen, transaction_begin-Open, commit-timed, timer_of,
}
use neoswc.River.State.{Wm, Env, RiverWindow, manage, settle, render, is_manage}
use neoswc.River.Sequence.{
  begin_render, below, skipped, configure_window, configure_windows, manager_manage_finish,
  manage_timeout_ms,
}
use neoswc.River.Steps.{step, cohort_event}

-- Behind `swc_transaction_begin`, while the windows are configured
record Settling (wm : Wm) : Type 0 where
  pub cohort_open : Open wm.cohort
  pub managed : is_some wm.manager ≡ true
  pub in_settle : wm.phase ≡ settle

begin_render-render : (wm : Wm) → is_some wm.manager ≡ true → (begin_render wm).phase ≡ render
unfolding begin_render
begin_render-render wm h = ground (arith, h)

quiet-Settling : (wm : Wm) (o : Outcome) → StaysOpen o → Settling wm → Settling (below wm o)
unfolding below StaysOpen
quiet-Settling wm (c, none) (q, v) s = record {
  cohort_open = v;
  managed = s.managed;
  in_settle = s.in_settle;
}
quiet-Settling wm (c, some b) (q, v) s = ground (arith, q)

configure_window-Settling :
    (env : Env) (w : RiverWindow) (wm : Wm) → Settling wm → Settling (configure_window env w wm)
unfolding configure_window
configure_window-Settling env w wm s =
    option_ind Settling w.swc (λ _. s)
      λ k _.
        if_ind Settling (skipped w) (λ _. s)
          λ _.
            quiet-Settling wm _ (set_geometry-StaysOpen (env.joined k) wm.cohort k _ s.cohort_open)
              s

configure_windows-Settling :
    (env : Env) (ws : List RiverWindow) (wm : Wm)
    → Settling wm
    → Settling (configure_windows env ws wm)
unfolding configure_windows
configure_windows-Settling env [] wm s = s
configure_windows-Settling env (w ∷ ws) wm s =
    configure_windows-Settling env ws _ (configure_window-Settling env w wm s)

-- The outcome of the sequence: rendering at once, or a timer that runs, and rendering when it expires
pub Settles : Wm → Type 0
Settles wm =
    (wm.phase ≡ render)
    ⊎ ((wm.phase ≡ settle)
        × (timer_of wm.cohort.barrier ≡ armed manage_timeout_ms)
        × ((env : Env) → (step env wm (cohort_event expire_call)).phase ≡ render))

below-some :
    (wm : Wm) (o : Outcome) (b : Bool)
    → is_some wm.manager ≡ true
    → o.1 ≡ some b
    → (below wm o).phase ≡ render
unfolding below
below-some wm (c, none) b h e = ground (arith, e)
below-some wm (c, some b') b h e = begin_render-render _ h

outcome-Settles :
    (wm : Wm) (o : Outcome)
    → Settling wm
    → (o.1 ≡ none
        → (timer_of o.0.barrier ≡ armed manage_timeout_ms)
          × ((transaction_expire o.0).1 ≡ some true))
    → Settles (below wm o)
unfolding Settles below step Cohort.step
outcome-Settles wm (c, some b) s timed = inl (begin_render-render _ s.managed)
outcome-Settles wm (c, none) s timed =
    let (running, ends) = timed refl in
    inr (s.in_settle, running, λ env. below-some (record wm { cohort = c }) _ true s.managed ends)

opened-Open :
    (loop allocated : Bool) (c : Cohort)
    → loop ≡ true
    → allocated ≡ true
    → c.barrier ≡ none
    → Open (transaction_begin loop allocated c).0
opened-Open true true c l a e = transaction_begin-Open c e
opened-Open true false c l a e = absurd (ground (arith, a))
opened-Open false allocated c l a e = absurd (ground (arith, l))

committed-Settles :
    (timer_added : Bool) (wm : Wm)
    → timer_added ≡ true
    → Settling wm
    → Settles (below wm (transaction_commit timer_added wm.cohort manage_timeout_ms true))
committed-Settles true wm e s =
    outcome-Settles wm _ s
      (commit-timed wm.cohort manage_timeout_ms s.cohort_open (λ z. omega arith))
committed-Settles false wm e s = absurd (ground (arith, e))

-- Behind `manage_finish` of a manager, in the manage phase, with no cohort under way, and with an
-- event loop, memory and a timer, either the render sequence has begun, or the phase is settle, the
-- timer of the cohort is armed with 100 ms, and its expiry, if it is the next event, begins the
-- render sequence.
pub manage_finish-Settles :
    (env : Env) (wm : Wm)
    → is_some wm.manager ≡ true
    → wm.phase ≡ manage
    → wm.cohort.barrier ≡ none
    → env.loop ≡ true
    → env.allocated ≡ true
    → env.timer_added ≡ true
    → Settles (manager_manage_finish env wm)
unfolding manager_manage_finish
manage_finish-Settles env wm here phase closed loop allocated timed =
    if_ind Settles (not (is_manage wm.phase)) (λ h. absurd (ground (arith, phase, h)))
      λ _. committed-Settles env.timer_added _ timed (
        configure_windows-Settling env wm.windows _ (record {
          cohort_open = opened-Open env.loop env.allocated wm.cohort loop allocated closed;
          managed = here;
          in_settle = refl;
        }))
