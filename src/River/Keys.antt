-- ===== src/River/Keys.antt =====
-- wm/river_wm.c: the manager's key and pointer bindings, and what is observed of keyboard and
-- pointer. What xkbcommon makes of a key is given by a `Layout`.
use Prim.Native.Nat.{bit_and, bit_xor}
use neoswc.Prelude.{
  ℕ, Bool, true, false, not, ◌&&◌, ◌||◌, Option, none, some, List, [], ◌∷◌, ◌++◌, ◌==◌,
  if◌then◌else◌,
}
use neoswc.Transaction.{is_some}
use neoswc.River.Events.{
  Binding, BindingEvent, pressed, released, stop_repeat, ate_unbound, modifiers, window_interaction,
  drop_binding_events,
}
use neoswc.River.Modifiers.{modifiers_to_river}
use neoswc.River.State.{RiverWindow, Wm}
use neoswc.River.Sequence.{schedule_sequence}

-- `swc_keyboard_keysym`, `swc_keyboard_keysym_in_layout`, `swc_keyboard_layout`,
-- `swc_keyboard_modifiers`, `swc_keyboard_consumed_modifiers`
pub record Layout : Type 0 where
  pub keysym : ℕ → ℕ
  pub keysym_in_layout : ℕ → ℕ → ℕ
  pub layout : ℕ → ℕ
  pub active : ℕ
  pub consumed_modifiers : ℕ → ℕ

-- `active & ~consumed` on masks
abbrev pub and_not : ℕ → ℕ → ℕ
and_not active consumed = bit_xor active (bit_and active consumed)

-- `queue_binding_event` and `queue_window_interaction`
unfoldable pub queue_event : Bool → Bool → BindingEvent → Wm → Wm
queue_event allocated added e wm =
    if not allocated
    then wm
    else schedule_sequence added (record wm { pending = wm.pending ++ e ∷ [] })

unfoldable pub modify_binding : ℕ → (Binding → Binding) → List Binding → List Binding
modify_binding i g [] = []
modify_binding i g (b ∷ bs) = if b.id == i then g b ∷ bs else b ∷ modify_binding i g bs

-- `binding_register`; `taken` is the answer of `swc_add_binding`. Key bindings are `not is_button`.
unfoldable pub binding_register : Bool → Binding → Binding
binding_register taken b =
    if not b.is_button
    then record b { enabled = true }
    else if b.registered
    then b
    else record b { registered = taken }

-- `binding_unregister`
unfoldable pub binding_unregister : Binding → Binding
binding_unregister b =
    if not b.is_button
    then record b { enabled = false }
    else if not b.registered
    then b
    else record b { registered = false }

-- `binding_set_layout_override`
unfoldable pub binding_set_layout_override : ℕ → Binding → Binding
binding_set_layout_override layout b = record b { layout_override = some layout }

-- `binding_matches`
unfoldable pub binding_matches : Layout → Binding → ℕ → ℕ → Bool
binding_matches l b keycode effective =
    if not b.enabled || not b.resource
    then false
    else (elim b.layout_override [
      | some layout ↦ l.keysym_in_layout keycode layout == b.keysym
      | none ↦
          (l.keysym keycode == b.keysym)
          || (l.keysym_in_layout keycode (l.layout keycode) == b.keysym)
    ])
      && (b.modifiers == effective)

-- The first loop of `binding_observe_key`: the binding that this key holds.
unfoldable pub held_by : ℕ → List Binding → Option Binding
held_by keycode [] = none
held_by keycode (b ∷ bs) =
    if not b.is_button && b.held && (b.held_keycode == keycode) then some b else held_by keycode bs

-- Its second loop: the binding that this press triggers.
unfoldable pub find_match : Layout → ℕ → ℕ → List Binding → Option Binding
find_match l keycode effective [] = none
find_match l keycode effective (b ∷ bs) =
    if not b.is_button && binding_matches l b keycode effective
    then some b
    else find_match l keycode effective bs

abbrev pub is_match : Option Binding → Binding → Bool
is_match none b = false
is_match (some m) b = m.id == b.id

-- Its third loop: every other binding that is held stops repeating.
unfoldable pub stop_repeats : Bool → Bool → Option Binding → List Binding → Wm → Wm
stop_repeats allocated added m [] wm = wm
stop_repeats allocated added m (b ∷ bs) wm = stop_repeats allocated added m bs (
    if not b.is_button && b.held && not (is_match m b)
    then queue_event allocated added (stop_repeat b.id) wm
    else wm)

-- The release branch of `binding_observe_key`
unfoldable pub observe_release : Bool → Bool → ℕ → Wm → Wm × Bool
observe_release allocated added keycode wm = elim (held_by keycode wm.bindings) [
  | none ↦ (wm, false)
  | some b ↦ (
    queue_event allocated added (released b.id)
        (record wm { bindings = modify_binding b.id (λ v. record v { held = false }) wm.bindings }),
    true,
  )
]

-- The end of the press branch of `binding_observe_key`; whether the key is taken is returned.
unfoldable pub fire : Bool → Bool → ℕ → Option Binding → Wm → Wm × Bool
fire allocated added keycode (some b) wm = (
  record (queue_event allocated added (pressed b.id) (record wm {
    bindings =
        modify_binding b.id (λ v. record v { held = true; held_keycode = keycode }) wm.bindings;
  })) { eat_next_key = false },
  true,
)
fire allocated added keycode none wm =
    if wm.eat_next_key
    then (queue_event allocated added ate_unbound (record wm { eat_next_key = false }), true)
    else (wm, false)

-- The press branch of `binding_observe_key`
unfoldable pub observe_press : Bool → Bool → Layout → ℕ → Wm → Wm × Bool
observe_press allocated added l keycode wm =
    let effective = and_not l.active (l.consumed_modifiers keycode) in
    let found = find_match l keycode effective wm.bindings in
    fire allocated added keycode found (stop_repeats allocated added found wm.bindings wm)

-- `binding_observe_modifiers`
unfoldable pub binding_observe_modifiers : Bool → Bool → ℕ → ℕ → Wm → Wm
binding_observe_modifiers allocated added previous current wm =
    if bit_and (bit_xor previous current) wm.watched_modifiers == 0
    then wm
    else queue_event allocated added
        (modifiers (modifiers_to_river previous) (modifiers_to_river current)) wm

abbrev is_window : ℕ → Option ℕ → Bool
is_window k none = false
is_window k (some j) = j == k

unfoldable pub find_by_swc : ℕ → List RiverWindow → Option RiverWindow
find_by_swc k [] = none
find_by_swc k (w ∷ ws) = if not w.closed && is_window k w.swc then some w else find_by_swc k ws

-- `seat_observe_button`; the pointer may be over no window.
unfoldable pub seat_observe_button : Bool → Bool → Bool → Option ℕ → Wm → Wm
seat_observe_button allocated added state over wm =
    if not state || not (is_some wm.seat) then wm else elim over [
      | none ↦ wm
      | some k ↦ elim (find_by_swc k wm.windows) [
        | none ↦ wm
        | some w ↦
            if is_some w.resource
            then queue_event allocated added (window_interaction w.id) wm
            else wm
      ]
    ]

unfoldable pub remove_binding : ℕ → List Binding → List Binding
remove_binding i [] = []
remove_binding i (b ∷ bs) = if b.id == i then bs else b ∷ remove_binding i bs

-- `binding_resource_destroy`; that a pointer binding is also taken from libswc is left out.
unfoldable pub binding_resource_destroy : ℕ → Wm → Wm
binding_resource_destroy i wm = record wm {
  bindings = remove_binding i wm.bindings;
  pending = drop_binding_events i wm.pending;
}

-- `binding_pressed` for a pointer binding
unfoldable pub binding_pressed : Bool → Bool → Bool → Binding → Wm → Wm
binding_pressed allocated added state b wm =
    if not b.resource
    then wm
    else queue_event allocated added (if state then pressed b.id else released b.id) wm
