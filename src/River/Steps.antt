-- ===== src/River/Steps.antt =====
-- wm/river_wm.c: everything that can happen to the window manager's side, as one step.
use neoswc.Prelude.{ℕ, Bool, true, Option, none, some, if◌then◌else◌}
use neoswc.Prelude.Int.{ℤ}
use neoswc.Cohort
use neoswc.Cohort.{Call}
use neoswc.River.Events.{find_binding, pressed, released}
use neoswc.River.State.{Wm, Env}
use neoswc.River.Sequence.{
  schedule_sequence, handle_idle, manager_manage_finish, manager_render_finish, below,
}
use neoswc.River.Manager.{
  handle_window_destroy, river_wm_add_window, window_propose_dimensions, window_get_node,
  window_resource_destroy, node_resource_destroy, manager_resource_destroy, bind_manager,
}
use neoswc.River.Keys.{
  Layout, modify_binding, binding_register, binding_unregister, binding_set_layout_override,
  observe_press, observe_release, binding_observe_modifiers, seat_observe_button,
  binding_resource_destroy, binding_pressed, queue_event,
}

-- The requests of the manager, the callbacks of libswc and of the event loop. `manage_dirty` also
-- stands for the handlers that only send to a window or an output and schedule a sequence.
pub data Event : Type 0 where
  idle_event manage_finish render_finish manage_dirty : Event
  bind manager_gone : ℕ → Event
  window_added : ℕ → ℕ → Event
  window_destroyed : ℕ → Event
  propose : ℕ → ℤ → ℤ → Event
  get_node window_gone node_gone : ℕ → ℕ → Event
  cohort_event : Call → Event
  key_press : Layout → ℕ → Event
  key_release : ℕ → Event
  modifiers_event : ℕ → ℕ → Event
  button : Bool → Option ℕ → Event
  enable : Bool → ℕ → Event
  disable binding_gone : ℕ → Event
  layout_override : ℕ → ℕ → Event
  binding_event : Bool → ℕ → Event

-- Memory for an event and an idle source can always be had. A binding that libswc calls when it is
-- freed is taken to be what it was.
unfoldable pub step : Env → Wm → Event → Wm
step env wm idle_event = if wm.idle_pending then handle_idle env wm else wm
step env wm manage_finish = manager_manage_finish env wm
step env wm render_finish = manager_render_finish true wm
step env wm manage_dirty = schedule_sequence true wm
step env wm (bind object) = bind_manager true object wm
step env wm (manager_gone object) = manager_resource_destroy object wm
step env wm (window_added i k) = river_wm_add_window true true i k wm
step env wm (window_destroyed i) = handle_window_destroy true i wm
step env wm (propose i width height) = window_propose_dimensions i width height wm
step env wm (get_node i object) = window_get_node i object wm
step env wm (window_gone i object) = window_resource_destroy i object wm
step env wm (node_gone i object) = node_resource_destroy i object wm
step env wm (cohort_event call) = below wm (Cohort.step wm.cohort call)
step env wm (key_press l keycode) = (observe_press true true l keycode wm).0
step env wm (key_release keycode) = (observe_release true true keycode wm).0
step env wm (modifiers_event previous current) =
    binding_observe_modifiers true true previous current wm
step env wm (button state over) = seat_observe_button true true state over wm
step env wm (enable taken i) = record wm {
  bindings = modify_binding i (binding_register taken) wm.bindings;
}
step env wm (disable i) = record wm { bindings = modify_binding i binding_unregister wm.bindings }
step env wm (layout_override i layout) = record wm {
  bindings = modify_binding i (binding_set_layout_override layout) wm.bindings;
}
step env wm (binding_gone i) = binding_resource_destroy i wm
step env wm (binding_event state i) = elim (find_binding i wm.bindings) [
  | none ↦ queue_event true true (if state then pressed i else released i) wm
  | some b ↦ binding_pressed true true state b wm
]
