-- ===== src/Pointer/Handlers.antt =====
-- libswc/pointer.c: the handlers, and what they send to the client.
use neoswc.Prelude.{
  ℕ, suc, ◌%◌, Bool, true, false, not, ◌&&◌, Option, none, some, List, [], ◌∷◌, ◌++◌, ◌==◌, leb,
  if◌then◌else◌,
}
use neoswc.Prelude.Int.{ℤ, pos, ◌-ℤ◌, eqb_ℤ}
use neoswc.Prelude.Machine.{quot}
use neoswc.Focus.{Resource, View}
use neoswc.Pointer.{
  Handler, client_handler, observer_handler, other_handler, Scroll, Message, motion_sent,
  button_sent, axis_source_sent, axis_value120_sent, axis_discrete_sent, axis_sent, axis_stop_sent,
  frame_sent, Observer, Ancestor, Surroundings, Pointer,
}

-- The loops over `focus.active`; the log has the newest message first.
abbrev pub send_each :
    (ℕ → List Message → List Message) → List Resource → List Message → List Message
send_each one [] sent = sent
send_each one (r ∷ rs) sent = send_each one rs (one r.id sent)

abbrev add_if : Bool → Message → List Message → List Message
add_if b m sent = if b then m ∷ sent else sent

abbrev pub view_origin : (ℕ → ℤ) → Option View → ℤ
view_origin origin none = pos 0
view_origin origin (some v) = origin v.id

-- The walk of `button_window`
unfoldable pub button_window : List Ancestor → Option ℕ
button_window [] = none
button_window (a ∷ parents) =
    let above = button_window parents in
    elim a.window [ some w ↦ some w | none ↦ if not a.subsurface then none else above ]

abbrev pub is_empty : List Resource → Bool
is_empty [] = true
is_empty _ = false

-- `source` of `client_handle_axis` after its test: none once the frame has one. The assertion that
-- it is the same one is not part of it.
abbrev pub frame_source : Option ℕ → Option ℕ → Option ℕ
frame_source none source = source
frame_source (some _) source = none

abbrev pub kept_source : Option ℕ → Option ℕ → Option ℕ
kept_source none source = source
kept_source (some s) source = some s

-- The window of the view that the pointer is on
abbrev pub focus_window : (ℕ → List Ancestor) → Option View → Option ℕ
focus_window ancestry none = none
focus_window ancestry (some v) = button_window (ancestry v.id)

abbrev send_source : Bool → ℕ → Option ℕ → List Message → List Message
send_source known id none sent = sent
send_source known id (some source) sent = add_if known (axis_source_sent id source) sent

module _ {S : Type 0} where
  -- The loop of `observer_handle_button`
  unfoldable pub observe_button : List (Observer S) → S → ℕ → Bool → Option ℕ → S
  observe_button [] s value state window = s
  observe_button (o ∷ os) s value state window =
      observe_button os (elim o.button [ none ↦ s | some f ↦ f s value state window ]) value state
        window

  unfoldable pub drop_observer : ℕ → List (Observer S) → List (Observer S)
  drop_observer i [] = []
  drop_observer i (o ∷ os) = if o.id == i then os else o ∷ drop_observer i os

module _ {R : Type 0} {S : Type 0} where
  -- `client_handle_motion`
  unfoldable pub client_handle_motion : Surroundings R S → Pointer R S → Pointer R S × Bool
  client_handle_motion env p =
      let sx = p.x -ℤ env.fixed.from_int (view_origin env.origin_x p.focus.view) in
      let sy = p.y -ℤ env.fixed.from_int (view_origin env.origin_y p.focus.view) in
      if is_empty p.focus.active then (p, false) else (
        record p { sent = send_each (λ id l. motion_sent id sx sy ∷ l) p.focus.active p.sent },
        true,
      )

  -- `client_handle_button`
  unfoldable pub client_handle_button : Pointer R S → ℕ → ℕ → Bool → Pointer R S × Bool
  client_handle_button p value serial state = if is_empty p.focus.active then (p, false) else (
    record p {
      sent = send_each (λ id l. button_sent id serial value state ∷ l) p.focus.active p.sent;
    },
    true,
  )

  -- The body of the loop of `client_handle_axis`, and of that of `swc_pointer_send_axis`
  unfoldable pub send_axis : Surroundings R S → Scroll → ℕ → List Message → List Message
  send_axis env scroll id sent =
      let since = env.since in
      let ver = env.version id in
      let steps = not (eqb_ℤ scroll.value120 (pos 0)) in
      let exact = leb since.axis_value120 ver in
      let sourced = send_source (leb since.axis_source ver) id scroll.source sent in
      let stepped =
        add_if (steps && not exact && leb since.axis_discrete ver)
          (axis_discrete_sent id scroll.axis (quot scroll.value120 120))
          (add_if (steps && exact) (axis_value120_sent id scroll.axis scroll.value120) sourced) in
      if not (eqb_ℤ scroll.value (pos 0))
      then axis_sent id scroll.axis scroll.value ∷ stepped
      else add_if (leb since.axis_stop ver) (axis_stop_sent id scroll.axis) stepped

  -- `client_handle_axis`
  unfoldable pub client_handle_axis : Surroundings R S → Pointer R S → Scroll → Pointer R S × Bool
  client_handle_axis env p scroll =
      let scroll' = record scroll { source = frame_source p.client_axis_source scroll.source } in
      if is_empty p.focus.active then (p, false) else (
        record p {
          client_axis_source = kept_source p.client_axis_source scroll.source;
          sent = send_each (send_axis env scroll') p.focus.active p.sent;
        },
        true,
      )

  abbrev pub send_frames : Surroundings R S → List Resource → List Message → List Message
  send_frames env =
      send_each (λ id l. add_if (leb env.since.frame (env.version id)) (frame_sent id) l)

  -- `client_handle_frame`
  unfoldable pub client_handle_frame : Surroundings R S → Pointer R S → Pointer R S
  client_handle_frame env p = record p {
    client_axis_source = none;
    sent = send_frames env p.focus.active p.sent;
  }

  -- `swc_pointer_send_button`
  unfoldable pub swc_pointer_send_button : Surroundings R S → Pointer R S → ℕ → Bool → Pointer R S
  swc_pointer_send_button env p value state =
      let serial = suc p.last_serial % 4294967296 in
      let (p', taken) =
        client_handle_button (record p { last_serial = serial }) value serial state in
      if taken then client_handle_frame env p' else p

  -- `swc_pointer_send_axis`; the source is a wheel.
  unfoldable pub swc_pointer_send_axis : Surroundings R S → Pointer R S → ℕ → ℕ → ℤ → Pointer R S
  swc_pointer_send_axis env p wheel axis value120 =
      let scroll : Scroll = record {
        axis = axis;
        source = some wheel;
        value = env.of_120 value120;
        value120 = value120;
      } in
      if is_empty p.focus.active
      then p
      else client_handle_frame env
          (record p { sent = send_each (send_axis env scroll) p.focus.active p.sent })

  -- `observer_handle_button`, which never consumes
  unfoldable pub observer_handle_button : Surroundings R S → Pointer R S → ℕ → Bool → Pointer R S
  observer_handle_button env p value state =
      let window = focus_window env.ancestry p.focus.view in
      record p { rest = observe_button p.observers p.rest value state window }

  -- `swc_add_pointer_observer` with a pointer and an implementation; 0 or -ENOMEM
  unfoldable pub add_pointer_observer :
      Surroundings R S → Pointer R S → Observer S → Pointer R S × Bool
  add_pointer_observer env p o =
      if not env.observer_allocated
      then (p, false)
      else if p.observers_initialized
      then (record p { observers = p.observers ++ (o ∷ []) }, true)
      else (
        record p {
          observers = o ∷ [];
          observers_initialized = true;
          handlers = record { handler = observer_handler; pending = false } ∷ p.handlers;
        },
        true,
      )

  -- `swc_remove_pointer_observer`
  unfoldable pub remove_pointer_observer : Pointer R S → ℕ → Pointer R S
  remove_pointer_observer p i =
      if not p.observers_initialized
      then p
      else record p { observers = drop_observer i p.observers }

  -- `handler->motion`, `handler->button`, `handler->axis` and `handler->frame`; a function that is
  -- NULL does not take the event.
  unfoldable pub handler_motion : Surroundings R S → Handler → Pointer R S → Pointer R S × Bool
  handler_motion env client_handler p = client_handle_motion env p
  handler_motion env observer_handler p = (p, false)
  handler_motion env (other_handler n) p = elim (env.other n).motion [
    | none ↦ (p, false)
    | some f ↦ let (s, taken) = f p.rest p.x p.y in (record p { rest = s }, taken)
  ]

  unfoldable pub handler_button :
      Surroundings R S → Handler → Pointer R S → ℕ → ℕ → Bool → Pointer R S × Bool
  handler_button env client_handler p value serial state = client_handle_button p value serial state
  handler_button env observer_handler p value serial state =
      (observer_handle_button env p value state, false)
  handler_button env (other_handler n) p value serial state = elim (env.other n).button [
    | none ↦ (p, false)
    | some f ↦ let (s, taken) = f p.rest value serial state in (record p { rest = s }, taken)
  ]

  unfoldable pub handler_axis :
      Surroundings R S → Handler → Pointer R S → Scroll → Pointer R S × Bool
  handler_axis env client_handler p scroll = client_handle_axis env p scroll
  handler_axis env observer_handler p scroll = (p, false)
  handler_axis env (other_handler n) p scroll = elim (env.other n).axis [
    | none ↦ (p, false)
    | some f ↦ let (s, taken) = f p.rest scroll in (record p { rest = s }, taken)
  ]

  unfoldable pub handler_frame : Surroundings R S → Handler → Option (Pointer R S → Pointer R S)
  handler_frame env client_handler = some (client_handle_frame env)
  handler_frame env observer_handler = none
  handler_frame env (other_handler n) = elim (env.other n).frame [
    | none ↦ none
    | some f ↦ some (λ p. record p { rest = f p.rest })
  ]
