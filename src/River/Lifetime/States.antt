-- ===== src/River/Lifetime/States.antt =====
-- wm/river_wm.c: the operations that many handlers share, and what a queued event points at.
use neoswc.Prelude.{
  ℕ, ◌≡◌, refl, Bool, true, not, ◌&&◌, ◌||◌, none, some, List, [], ◌∷◌, arith, if◌then◌else◌,
  if_ind, option_ind, Option, ◌∙◌, subst, sym, ==_iff,
}
use neoswc.Transaction.{is_some}
use neoswc.Cohort.{Cohort, Outcome}
use neoswc.River.Events.{
  drop_window_events, Binding, BindingEvent, is_for_window, is_for_binding, stop_repeat,
}
use neoswc.River.State.{is_manage, Wm, Env, find_window, RiverWindow, free_window}
use neoswc.River.Sequence.{
  schedule_sequence, handle_idle, begin_manage, start_manage, begin_render, below, configure_window,
  configure_windows, report, report_size, manager_manage_finish, manager_render_finish, skipped,
}
use neoswc.River.Manager.{maybe_free_window, set_window}
use neoswc.River.Keys.{queue_event, stop_repeats, is_match}
use neoswc.River.Lifetime.{
  for_window, for_binding, there, bound, Live, for_window-append, for_binding-append,
  for_window-drop, for_binding-drop_window, there-free, there-modify, there-each, bound_first,
  bound_later,
}

pub schedule-Live : (added : Bool) (wm : Wm) → Live wm → Live (schedule_sequence added wm)
unfolding schedule_sequence
schedule-Live added wm v = ground (arith, v)

pub queue_event-Live :
    (e : BindingEvent) (wm : Wm)
    → ((i : ℕ) → is_for_window i e ≡ true → there i wm.windows ≡ true)
    → ((i : ℕ) → is_for_binding i e ≡ true → bound i wm.bindings ≡ true)
    → Live wm
    → Live (queue_event true true e wm)
unfolding queue_event
queue_event-Live e wm hw hb v = schedule-Live true _ (record {
  windows_live = λ i h. ground (arith, for_window-append i wm.pending e, hw i, v.windows_live i);
  bindings_live = λ i h. ground (arith, for_binding-append i wm.pending e, hb i, v.bindings_live i);
})

pub set_window-Live :
    (i : ℕ) (g : RiverWindow → RiverWindow) (wm : Wm)
    → ((w : RiverWindow) → (g w).id ≡ w.id)
    → Live wm
    → Live (set_window i g wm)
set_window-Live i g wm same v = record {
  windows_live = λ j h. there-modify i j g wm.windows same ∙ v.windows_live j h;
  bindings_live = v.bindings_live;
}

freed-Live :
    (i : ℕ) (wm : Wm)
    → Live wm
    → Live (record wm {
      windows = free_window i wm.windows;
      pending = drop_window_events i wm.pending;
    })
freed-Live i wm v = record {
  windows_live = λ j h.
      ground (arith, for_window-drop i j wm.pending, v.windows_live j, there-free i j wm.windows);
  bindings_live = λ j h. ground (arith, for_binding-drop_window i j wm.pending, v.bindings_live j);
}

pub maybe_free-Live : (i : ℕ) (wm : Wm) → Live wm → Live (maybe_free_window i wm)
unfolding maybe_free_window
maybe_free-Live i wm v =
    option_ind Live (find_window i wm.windows) (λ _. v)
      λ w _.
        if_ind Live (is_some w.swc || is_some w.resource || is_some w.node) (λ _. v)
          λ _. freed-Live i wm v

report-id : (c : Cohort) (w : RiverWindow) → (report c w).0.id ≡ w.id
unfolding report report_size
report-id c w = ground arith

begin_render-Live : (wm : Wm) → Live wm → Live (begin_render wm)
unfolding begin_render
begin_render-Live wm v =
    if_ind Live (not (is_some wm.manager))
      (λ _. record { windows_live = v.windows_live; bindings_live = v.bindings_live })
      λ _. record {
        windows_live = λ j h.
            there-each j (report wm.cohort) wm.windows wm.sent (report-id wm.cohort)
            ∙ v.windows_live j h;
        bindings_live = v.bindings_live;
      }

pub below-Live : (wm : Wm) (o : Outcome) → Live wm → Live (below wm o)
unfolding below
below-Live wm (c, none) v = record {
  windows_live = v.windows_live;
  bindings_live = v.bindings_live;
}
below-Live wm (c, some timed_out) v =
    begin_render-Live _ (record { windows_live = v.windows_live; bindings_live = v.bindings_live })

configure_window-Live :
    (env : Env) (w : RiverWindow) (wm : Wm) → Live wm → Live (configure_window env w wm)
unfolding configure_window
configure_window-Live env w wm v =
    option_ind Live w.swc (λ _. v) λ k _. if_ind Live (skipped w) (λ _. v) λ _. below-Live wm _ v

configure_windows-Live :
    (env : Env) (ws : List RiverWindow) (wm : Wm) → Live wm → Live (configure_windows env ws wm)
unfolding configure_windows
configure_windows-Live env [] wm v = v
configure_windows-Live env (w ∷ ws) wm v =
    configure_windows-Live env ws _ (configure_window-Live env w wm v)

pub manage_finish-Live : (env : Env) (wm : Wm) → Live wm → Live (manager_manage_finish env wm)
unfolding manager_manage_finish
manage_finish-Live env wm v =
    if_ind Live (not (is_manage wm.phase))
      (λ _. record { windows_live = v.windows_live; bindings_live = v.bindings_live })
      λ _. below-Live _ _ (
        configure_windows-Live env wm.windows _
          (record { windows_live = v.windows_live; bindings_live = v.bindings_live }))

pub render_finish-Live : (wm : Wm) → Live wm → Live (manager_render_finish true wm)
unfolding manager_render_finish schedule_sequence
render_finish-Live wm v = ground (arith, v)

pub handle_idle-Live : (env : Env) (wm : Wm) → Live wm → Live (handle_idle env wm)
unfolding handle_idle begin_manage start_manage for_window for_binding
handle_idle-Live env wm v = ground (arith, v)

queue_event-bindings :
    (e : BindingEvent) (wm : Wm) → (queue_event true true e wm).bindings ≡ wm.bindings
unfolding queue_event schedule_sequence
queue_event-bindings e wm = ground arith

-- One round of the loop
stop_repeat-Live :
    (m : Option Binding) (b : Binding) (wm : Wm)
    → bound b.id wm.bindings ≡ true
    → Live wm
    → let wm' =
        (if not b.is_button && b.held && not (is_match m b)
          then queue_event true true (stop_repeat b.id) wm
          else wm) in
      Live wm' × (wm'.bindings ≡ wm.bindings)
stop_repeat-Live m b wm h v =
    if_ind (λ (x : Wm). Live x × (x.bindings ≡ wm.bindings))
      (not b.is_button && b.held && not (is_match m b))
      (λ _. (
        queue_event-Live (stop_repeat b.id) wm (λ i e. ground (arith, e))
            (λ i e. subst (λ j. bound j wm.bindings ≡ true) ((==_iff b.id i).0 e) h) v,
        queue_event-bindings (stop_repeat b.id) wm,
      ))
      λ _. (v, refl)

pub stop_repeats-Live :
    (m : Option Binding) (bs : List Binding) (wm : Wm)
    → ((j : ℕ) → bound j bs ≡ true → bound j wm.bindings ≡ true)
    → Live wm
    → Live (stop_repeats true true m bs wm)
      × ((stop_repeats true true m bs wm).bindings ≡ wm.bindings)
unfolding stop_repeats
stop_repeats-Live m [] wm h v = (v, refl)
stop_repeats-Live m (b ∷ bs) wm h v =
    let here = h b.id (bound_first b bs) in
    let (v', same) = stop_repeat-Live m b wm here v in
    let (v'', same') =
      stop_repeats-Live m bs _
        (λ j k. subst (λ x. bound j x ≡ true) (sym same) (h j (bound_later j b bs k))) v' in
    (v'', same' ∙ same)
