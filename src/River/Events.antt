-- ===== src/River/Events.antt =====
-- wm/river_wm.c: the bindings of a manager, the queue of binding events, and its flush.
-- Objects are known by numbers; `resource` says whether the client's object is there.
use neoswc.Prelude.{ℕ, Bool, false, Option, none, some, List, [], ◌∷◌, ◌==◌, leb, if◌then◌else◌}
use neoswc.Prelude.Int.{ℤ}

-- The events that the compositor sends to the manager.
pub data Message : Type 0 where
  manage_start render_start sequence_error seat_sent ate_unbound_key : Message
  output_sent window_sent closed_sent : ℕ → Message
  dimensions : ℕ → ℕ → ℕ → Message
  dimensions_hint : ℕ → ℕ → ℕ → ℕ → ℕ → Message
  pointer_position : ℤ → ℤ → Message
  key_pressed key_released button_pressed button_released key_stop_repeat : ℕ → Message
  modifiers_update : ℕ → ℕ → Message
  interaction_sent : ℕ → Message

-- `struct river_binding`. `is_button` is `type == SWC_BINDING_BUTTON`.
pub record Binding : Type 0 where
  pub id : ℕ
  pub resource : Bool
  pub version : ℕ
  pub is_button : Bool
  pub keysym : ℕ
  pub modifiers : ℕ
  pub registered : Bool
  pub enabled : Bool
  pub layout_override : Option ℕ
  pub held : Bool
  pub held_keycode : ℕ

-- `struct binding_event`, each kind with the fields that it uses.
pub data BindingEvent : Type 0 where
  pressed released stop_repeat : ℕ → BindingEvent
  ate_unbound : BindingEvent
  modifiers : ℕ → ℕ → BindingEvent
  window_interaction : ℕ → BindingEvent

unfoldable pub find_binding : ℕ → List Binding → Option Binding
find_binding i [] = none
find_binding i (b ∷ bs) = if b.id == i then some b else find_binding i bs

-- The `case`s of `flush_binding_events` for a binding: what is sent to it, if its object is there.
abbrev to_binding : Option Binding → (Binding → Option Message) → Option Message
to_binding none f = none
to_binding (some b) f = if b.resource then f b else none

abbrev since : ℕ → Option ℕ → Message → Option Message
since v none m = none
since v (some w) m = if leb v w then some m else none

-- What the flush needs of the rest: the bindings, the versions of the manager's two seat objects,
-- and which windows the manager knows.
pub record Receivers : Type 0 where
  pub bindings : List Binding
  pub xkb_seat : Option ℕ
  pub seat : Option ℕ
  pub known : ℕ → Bool

-- The `switch` of `flush_binding_events`
unfoldable pub event_message : Receivers → BindingEvent → Option Message
event_message r (pressed i) =
    to_binding (find_binding i r.bindings)
      λ b. some (if b.is_button then button_pressed i else key_pressed i)
event_message r (released i) =
    to_binding (find_binding i r.bindings)
      λ b. some (if b.is_button then button_released i else key_released i)
event_message r (stop_repeat i) =
    to_binding (find_binding i r.bindings) λ b. since 2 (some b.version) (key_stop_repeat i)
event_message r ate_unbound = since 2 r.xkb_seat ate_unbound_key
event_message r (modifiers previous current) =
    since 3 r.xkb_seat (modifiers_update previous current)
event_message r (window_interaction i) = elim r.seat [
  | none ↦ none
  | some v ↦ if r.known i then some (interaction_sent i) else none
]

-- Messages are logged newest first.
abbrev pub send : Option Message → List Message → List Message
send none sent = sent
send (some m) sent = m ∷ sent

-- The loop of `flush_binding_events`; the queue is empty behind it.
unfoldable pub flush_binding_events : Receivers → List BindingEvent → List Message → List Message
flush_binding_events r [] sent = sent
flush_binding_events r (e ∷ es) sent = flush_binding_events r es (send (event_message r e) sent)

-- `event->binding == binding` and `event->window == window`
abbrev pub is_for_binding : ℕ → BindingEvent → Bool
is_for_binding i (pressed j) = j == i
is_for_binding i (released j) = j == i
is_for_binding i (stop_repeat j) = j == i
is_for_binding i _ = false

abbrev pub is_for_window : ℕ → BindingEvent → Bool
is_for_window i (window_interaction j) = j == i
is_for_window i _ = false

-- `drop_binding_events`
unfoldable pub drop_binding_events : ℕ → List BindingEvent → List BindingEvent
drop_binding_events i [] = []
drop_binding_events i (e ∷ es) =
    let rest = drop_binding_events i es in if is_for_binding i e then rest else e ∷ rest

-- `drop_window_events`
unfoldable pub drop_window_events : ℕ → List BindingEvent → List BindingEvent
drop_window_events i [] = []
drop_window_events i (e ∷ es) =
    let rest = drop_window_events i es in if is_for_window i e then rest else e ∷ rest
