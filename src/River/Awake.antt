-- ===== src/River/Awake.antt =====
-- A sequence that is wanted is not forgotten.
use Prim.Native.Nat.{bit_and, bit_xor}
use neoswc.Prelude.{
  ◌==◌, ℕ, ◌≡◌, Bool, true, not, ◌&&◌, ◌||◌, none, some, List, [], ◌∷◌, arith, if_ind, option_ind,
  Option,
}
use neoswc.Transaction.{is_some}
use neoswc.Cohort.{Cohort, Outcome, transaction_begin}
use neoswc.River.Events.{Binding, find_binding}
use neoswc.River.State.{Wm, Env, settle, is_idle, is_manage, find_window, RiverWindow}
use neoswc.River.Sequence.{
  schedule_sequence, start_manage, begin_manage, handle_idle, begin_render, below, configure_window,
  skipped, configure_windows, manager_manage_finish, manager_render_finish,
}
use neoswc.River.Manager.{
  holds, maybe_free_window, handle_window_destroy, river_wm_add_window, window_propose_dimensions,
  window_get_node, window_resource_destroy, node_resource_destroy, manager_resource_destroy,
  bind_manager,
}
use neoswc.River.Keys.{
  queue_event, held_by, is_match, stop_repeats, observe_release, observe_press, fire,
  binding_observe_modifiers, find_by_swc, seat_observe_button, binding_resource_destroy,
  binding_pressed,
}
use neoswc.River.Steps.{
  Event, step, idle_event, manage_finish, render_finish, manage_dirty, bind, manager_gone,
  window_added, window_destroyed, propose, get_node, window_gone, node_gone, cohort_event,
  key_press, key_release, modifiers_event, button, enable, disable, binding_gone, layout_override,
  binding_event,
}

-- With a manager there and no sequence under way, a wanted one has its idle source.
unfoldable pub Awake : Wm → Type 0
Awake wm = is_some wm.manager && is_idle wm.phase && wm.dirty ≡ true → wm.idle_pending ≡ true

schedule_sequence-Awake : (wm : Wm) → Awake (schedule_sequence true wm)
unfolding schedule_sequence Awake
schedule_sequence-Awake wm = ground arith

queue_event-Awake : (e : _) (wm : Wm) → Awake (queue_event true true e wm)
unfolding queue_event
queue_event-Awake e wm = schedule_sequence-Awake _

begin_render-Awake : (wm : Wm) → Awake (begin_render wm)
unfolding begin_render Awake
begin_render-Awake wm = ground arith

below-Awake : (wm : Wm) (o : Outcome) → Awake wm → Awake (below wm o)
unfolding below Awake
below-Awake wm (c, none) v = v
below-Awake wm (c, some timed_out) v = begin_render-Awake _

configure_window-Awake :
    (env : Env) (w : RiverWindow) (wm : Wm) → Awake wm → Awake (configure_window env w wm)
unfolding configure_window
configure_window-Awake env w wm v =
    option_ind Awake w.swc (λ _. v) λ k _. if_ind Awake (skipped w) (λ _. v) λ _. below-Awake wm _ v

configure_windows-Awake :
    (env : Env) (ws : List RiverWindow) (wm : Wm) → Awake wm → Awake (configure_windows env ws wm)
unfolding configure_windows
configure_windows-Awake env [] wm v = v
configure_windows-Awake env (w ∷ ws) wm v =
    configure_windows-Awake env ws _ (configure_window-Awake env w wm v)

settling-Awake : (wm : Wm) (c : Cohort) → Awake (record wm { phase = settle; cohort = c })
unfolding Awake
settling-Awake wm c = ground arith

manage_finish-Awake : (env : Env) (wm : Wm) → Awake wm → Awake (manager_manage_finish env wm)
unfolding manager_manage_finish Awake
manage_finish-Awake env wm v =
    if_ind Awake (not (is_manage wm.phase)) (λ _. v)
      λ _. below-Awake _ _ (
        configure_windows-Awake env wm.windows _
          (settling-Awake wm (transaction_begin env.loop env.allocated wm.cohort).0))

render_finish-Awake : (wm : Wm) → Awake wm → Awake (manager_render_finish true wm)
unfolding manager_render_finish Awake schedule_sequence
render_finish-Awake wm v = ground arith

handle_idle-Awake : (env : Env) (wm : Wm) → Awake (handle_idle env wm)
unfolding handle_idle begin_manage start_manage Awake
handle_idle-Awake env wm = ground arith

stop_repeats-Awake :
    (m : Option Binding) (bs : List Binding) (wm : Wm)
    → Awake wm
    → Awake (stop_repeats true true m bs wm)
unfolding stop_repeats
stop_repeats-Awake m [] wm v = v
stop_repeats-Awake m (b ∷ bs) wm v = stop_repeats-Awake m bs _ (
    if_ind Awake (not b.is_button && b.held && not (is_match m b)) (λ _. queue_event-Awake _ wm)
      λ _. v)

fire-Awake :
    (keycode : ℕ) (found : Option Binding) (wm : Wm)
    → Awake wm
    → Awake (fire true true keycode found wm).0
unfolding fire Awake
fire-Awake keycode (some b) wm v = queue_event-Awake _ _
fire-Awake keycode none wm v =
    if_ind (λ (r : Wm × Bool). Awake r.0) wm.eat_next_key (λ _. queue_event-Awake _ _) λ _. v

maybe_free-Awake : (i : ℕ) (wm : Wm) → Awake wm → Awake (maybe_free_window i wm)
unfolding maybe_free_window Awake
maybe_free-Awake i wm v = ground arith

-- Whatever event happens next, this is kept: if a manager is there, no sequence is under way and
-- one is wanted, then its idle source is pending, so that no relayout that was asked for is
-- forgotten. Memory for an event and the idle source can be had whenever they are wanted.
pub step-Awake : (env : Env) (wm : Wm) (e : Event) → Awake wm → Awake (step env wm e)
unfolding Awake step river_wm_add_window handle_window_destroy window_propose_dimensions
    window_get_node window_resource_destroy node_resource_destroy manager_resource_destroy
    bind_manager observe_press observe_release binding_observe_modifiers seat_observe_button
    binding_resource_destroy binding_pressed
step-Awake env wm idle_event v = if_ind Awake wm.idle_pending (λ _. handle_idle-Awake env wm) λ _. v
step-Awake env wm manage_finish v = manage_finish-Awake env wm v
step-Awake env wm render_finish v = render_finish-Awake wm v
step-Awake env wm manage_dirty v = schedule_sequence-Awake wm
step-Awake env wm (bind object) v =
    if_ind Awake (is_some wm.manager) (λ _. v) λ _. schedule_sequence-Awake _
step-Awake env wm (manager_gone object) v = ground arith
step-Awake env wm (window_added i k) v = schedule_sequence-Awake _
step-Awake env wm (window_destroyed i) v =
    option_ind Awake (find_window i wm.windows) (λ _. v) λ w _. schedule_sequence-Awake _
step-Awake env wm (propose i width height) v = v
step-Awake env wm (get_node i object) v = v
step-Awake env wm (window_gone i object) v =
    option_ind Awake (find_window i wm.windows) (λ _. v)
      λ w _. if_ind Awake (not (holds w.resource object)) (λ _. v) λ _. maybe_free-Awake i _ v
step-Awake env wm (node_gone i object) v =
    option_ind Awake (find_window i wm.windows) (λ _. v)
      λ w _. if_ind Awake (not (holds w.node object)) (λ _. v) λ _. maybe_free-Awake i _ v
step-Awake env wm (cohort_event call) v = below-Awake wm _ v
step-Awake env wm (key_press l keycode) v =
    fire-Awake keycode _ _ (stop_repeats-Awake _ wm.bindings wm v)
step-Awake env wm (key_release keycode) v =
    option_ind (λ (r : Wm × Bool). Awake r.0) (held_by keycode wm.bindings) (λ _. v)
      λ b _. queue_event-Awake _ _
step-Awake env wm (modifiers_event previous current) v =
    if_ind Awake (bit_and (bit_xor previous current) wm.watched_modifiers == 0) (λ _. v)
      λ _. queue_event-Awake _ wm
step-Awake env wm (button state over) v =
    if_ind Awake (not state || not (is_some wm.seat)) (λ _. v)
      λ _.
        option_ind Awake over (λ _. v)
          λ k _.
            option_ind Awake (find_by_swc k wm.windows) (λ _. v)
              λ w _. if_ind Awake (is_some w.resource) (λ _. queue_event-Awake _ wm) λ _. v
step-Awake env wm (enable taken i) v = v
step-Awake env wm (disable i) v = v
step-Awake env wm (layout_override i layout) v = v
step-Awake env wm (binding_gone i) v = v
step-Awake env wm (binding_event state i) v =
    option_ind Awake (find_binding i wm.bindings) (λ _. queue_event-Awake _ wm)
      λ b _. if_ind Awake (not b.resource) (λ _. v) λ _. queue_event-Awake _ wm
