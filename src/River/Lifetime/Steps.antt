-- ===== src/River/Lifetime/Steps.antt =====
-- wm/river_wm.c: whatever happens, what a queued event points at is allocated.
use Prim.Native.Nat.{bit_and, bit_xor}
use neoswc.Prelude.{
  ℕ, ◌≡◌, refl, Bool, true, false, not, ◌||◌, none, some, arith, ◌==◌, if◌then◌else◌, if_ind,
  option_ind, Option, ◌∙◌, subst, sym, ==_iff,
}
use neoswc.Transaction.{is_some}
use neoswc.River.Events.{Binding, find_binding, pressed, released, ate_unbound, window_interaction}
use neoswc.River.State.{Wm, Env, find_window}
use neoswc.River.Manager.{
  holds, close, handle_window_destroy, river_wm_add_window, window_propose_dimensions,
  window_get_node, window_resource_destroy, node_resource_destroy, forget_window,
  manager_resource_destroy, bind_manager,
}
use neoswc.River.Keys.{
  Layout, and_not, queue_event, modify_binding, binding_register, binding_unregister,
  binding_set_layout_override, held_by, find_match, observe_release, observe_press, fire,
  binding_observe_modifiers, find_by_swc, seat_observe_button, binding_resource_destroy,
  binding_pressed,
}
use neoswc.River.Lifetime.{
  there, bound, Live, for_binding-drop, for_window-drop_binding, there-map, there-append,
  bound-modify, bound-remove, bound-find, bound-held, bound-match, there-find_by_swc,
}
use neoswc.River.Lifetime.States.{
  schedule-Live, queue_event-Live, set_window-Live, maybe_free-Live, below-Live, manage_finish-Live,
  render_finish-Live, handle_idle-Live, stop_repeats-Live,
}
use neoswc.River.Steps.{
  Event, step, idle_event, manage_finish, render_finish, manage_dirty, bind, manager_gone,
  window_added, window_destroyed, propose, get_node, window_gone, node_gone, cohort_event,
  key_press, key_release, modifiers_event, button, enable, disable, binding_gone, layout_override,
  binding_event,
}

-- An event for window, or for binding, `j` that is there may be queued.
window_event-Live :
    (j : ℕ) (wm : Wm)
    → there j wm.windows ≡ true
    → Live wm
    → Live (queue_event true true (window_interaction j) wm)
window_event-Live j wm h v =
    queue_event-Live (window_interaction j) wm
      (λ i e. subst (λ k. there k wm.windows ≡ true) ((==_iff j i).0 e) h)
      (λ i e. ground (arith, e)) v

press-Live :
    (j : ℕ) (wm : Wm)
    → bound j wm.bindings ≡ true
    → Live wm
    → Live (queue_event true true (pressed j) wm)
press-Live j wm h v =
    queue_event-Live (pressed j) wm (λ i e. ground (arith, e))
      (λ i e. subst (λ k. bound k wm.bindings ≡ true) ((==_iff j i).0 e) h) v

release-Live :
    (j : ℕ) (wm : Wm)
    → bound j wm.bindings ≡ true
    → Live wm
    → Live (queue_event true true (released j) wm)
release-Live j wm h v =
    queue_event-Live (released j) wm (λ i e. ground (arith, e))
      (λ i e. subst (λ k. bound k wm.bindings ≡ true) ((==_iff j i).0 e) h) v

pressed_or_released-Live :
    (state : Bool) (b : Binding) (wm : Wm)
    → bound b.id wm.bindings ≡ true
    → Live wm
    → Live (queue_event true true (if state then pressed b.id else released b.id) wm)
pressed_or_released-Live true b wm h v = press-Live b.id wm h v
pressed_or_released-Live false b wm h v = release-Live b.id wm h v

-- A write to a binding frees none.
modified-Live :
    (i : ℕ) (g : Binding → Binding) (wm : Wm)
    → ((b : Binding) → (g b).id ≡ b.id)
    → Live wm
    → Live (record wm { bindings = modify_binding i g wm.bindings })
modified-Live i g wm same v = record {
  windows_live = v.windows_live;
  bindings_live = λ j h. bound-modify i j g wm.bindings same ∙ v.bindings_live j h;
}

unarmed-Live : (wm : Wm) → Live wm → Live (record wm { eat_next_key = false })
unarmed-Live wm v = record { windows_live = v.windows_live; bindings_live = v.bindings_live }

fire-Live :
    (keycode : ℕ) (found : Option Binding) (wm : Wm)
    → ((b : Binding) → found ≡ some b → bound b.id wm.bindings ≡ true)
    → Live wm
    → Live (fire true true keycode found wm).0
unfolding fire
fire-Live keycode (some b) wm h v =
    let g : Binding → Binding = (λ v. record v { held = true; held_keycode = keycode }) in
    unarmed-Live _ (
      press-Live b.id _ (bound-modify b.id b.id g wm.bindings (λ _. refl) ∙ h b refl)
        (modified-Live b.id g wm (λ _. refl) v))
fire-Live keycode none wm h v =
    if_ind (λ (r : Wm × Bool). Live r.0) wm.eat_next_key
      (λ _.
        queue_event-Live ate_unbound _ (λ i e. ground (arith, e)) (λ i e. ground (arith, e))
          (unarmed-Live wm v))
      λ _. v

key_press-Live :
    (l : Layout) (keycode : ℕ) (wm : Wm) → Live wm → Live (observe_press true true l keycode wm).0
unfolding observe_press
key_press-Live l keycode wm v =
    let effective = and_not l.active (l.consumed_modifiers keycode) in
    let found = find_match l keycode effective wm.bindings in
    let (v', same) = stop_repeats-Live found wm.bindings wm (λ j h. h) v in
    fire-Live keycode found _
      (λ b e.
        subst (λ bs. bound b.id bs ≡ true) (sym same)
          (bound-match l keycode effective wm.bindings b e))
      v'

key_release-Live : (keycode : ℕ) (wm : Wm) → Live wm → Live (observe_release true true keycode wm).0
unfolding observe_release
key_release-Live keycode wm v =
    option_ind (λ (r : Wm × Bool). Live r.0) (held_by keycode wm.bindings) (λ _. v)
      λ b e.
        release-Live b.id _
          (bound-modify b.id b.id (λ v. record v { held = false }) wm.bindings (λ _. refl)
            ∙ bound-held keycode wm.bindings b e)
          (modified-Live b.id (λ v. record v { held = false }) wm (λ _. refl) v)

binding_gone-Live : (i : ℕ) (wm : Wm) → Live wm → Live (binding_resource_destroy i wm)
unfolding binding_resource_destroy
binding_gone-Live i wm v = record {
  windows_live = λ j h. ground (arith, for_window-drop_binding i j wm.pending, v.windows_live j);
  bindings_live = λ j h.
      ground
        (arith, for_binding-drop i j wm.pending, bound-remove i j wm.bindings, v.bindings_live j);
}

-- A handler that libswc calls is that of a binding that is still there; any other event may come.
abbrev pub callable : Wm → Event → Bool
callable wm (binding_event state i) = bound i wm.bindings
callable wm _ = true

-- Whatever event happens next, this is kept: every window and every binding that a queued event
-- points at is still allocated, so that the flush before the next manage sequence reads no freed
-- memory. It is assumed that libswc calls the handler of a pointer binding only while that binding is
-- there, and that memory for an event can be had whenever it is wanted.
pub step-Live :
    (env : Env) (wm : Wm) (e : Event) → callable wm e ≡ true → Live wm → Live (step env wm e)
unfolding step river_wm_add_window handle_window_destroy window_propose_dimensions window_get_node
    window_resource_destroy node_resource_destroy manager_resource_destroy bind_manager
    binding_observe_modifiers seat_observe_button binding_pressed binding_register
    binding_unregister binding_set_layout_override bound
step-Live env wm idle_event c v =
    if_ind Live wm.idle_pending (λ _. handle_idle-Live env wm v) λ _. v
step-Live env wm manage_finish c v = manage_finish-Live env wm v
step-Live env wm render_finish c v = render_finish-Live wm v
step-Live env wm manage_dirty c v = schedule-Live true wm v
step-Live env wm (bind object) c v =
    if_ind Live (is_some wm.manager) (λ _. v)
      λ _.
        schedule-Live true _
          (record { windows_live = v.windows_live; bindings_live = v.bindings_live })
step-Live env wm (manager_gone object) c v =
    if_ind Live (not (holds wm.manager object)) (λ _. v)
      λ _. record {
        windows_live =
            λ j h. there-map j forget_window wm.windows (λ w. ground arith) ∙ v.windows_live j h;
        bindings_live = v.bindings_live;
      }
step-Live env wm (window_added i k) c v = schedule-Live true _ (record {
  windows_live = λ j h. there-append j wm.windows _ (v.windows_live j h);
  bindings_live = v.bindings_live;
})
step-Live env wm (window_destroyed i) c v =
    let v' = set_window-Live i close wm (λ _. refl) v in
    option_ind Live (find_window i wm.windows) (λ _. v)
      λ w _. schedule-Live true _ (
        maybe_free-Live i _ (
          if_ind Live (is_some w.resource)
            (λ _. record { windows_live = v'.windows_live; bindings_live = v'.bindings_live })
            λ _. v'))
step-Live env wm (propose i width height) c v = set_window-Live i _ wm (λ w. ground arith) v
step-Live env wm (get_node i object) c v = set_window-Live i _ wm (λ _. refl) v
step-Live env wm (window_gone i object) c v =
    option_ind Live (find_window i wm.windows) (λ _. v)
      λ w _.
        if_ind Live (not (holds w.resource object)) (λ _. v)
          λ _. maybe_free-Live i _ (set_window-Live i _ wm (λ _. refl) v)
step-Live env wm (node_gone i object) c v =
    option_ind Live (find_window i wm.windows) (λ _. v)
      λ w _.
        if_ind Live (not (holds w.node object)) (λ _. v)
          λ _. maybe_free-Live i _ (set_window-Live i _ wm (λ _. refl) v)
step-Live env wm (cohort_event call) c v = below-Live wm _ v
step-Live env wm (key_press l keycode) c v = key_press-Live l keycode wm v
step-Live env wm (key_release keycode) c v = key_release-Live keycode wm v
step-Live env wm (modifiers_event previous current) c v =
    if_ind Live (bit_and (bit_xor previous current) wm.watched_modifiers == 0) (λ _. v)
      λ _. queue_event-Live _ wm (λ i e. ground (arith, e)) (λ i e. ground (arith, e)) v
step-Live env wm (button state over) c v =
    if_ind Live (not state || not (is_some wm.seat)) (λ _. v)
      λ _.
        option_ind Live over (λ _. v)
          λ k _.
            option_ind Live (find_by_swc k wm.windows) (λ _. v)
              λ w e.
                if_ind Live (is_some w.resource)
                  (λ _. window_event-Live w.id wm (there-find_by_swc k wm.windows w e) v) λ _. v
step-Live env wm (enable taken i) c v =
    modified-Live i (binding_register taken) wm (λ b. ground arith) v
step-Live env wm (disable i) c v = modified-Live i binding_unregister wm (λ b. ground arith) v
step-Live env wm (layout_override i layout) c v =
    modified-Live i (binding_set_layout_override layout) wm (λ b. refl) v
step-Live env wm (binding_gone i) c v = binding_gone-Live i wm v
step-Live env wm (binding_event state i) c v =
    option_ind Live (find_binding i wm.bindings) (λ n. absurd (ground (arith, c, n)))
      λ b e.
        if_ind Live (not b.resource) (λ _. v)
          λ _. pressed_or_released-Live state b wm (bound-find i wm.bindings b e) v
