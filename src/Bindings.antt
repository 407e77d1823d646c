-- ===== src/Bindings.antt =====
-- libswc/bindings.c: key, button and axis bindings, and the routing of presses to their handlers.
-- A handler together with its data is known by a number. `press->data`, a pointer into an array, is
-- the slot it points at. What xkbcommon makes of a key is given by a `Keymap`.
pub mod Routes
pub mod Removal
mod Tests
use neoswc.Prelude.{
  ℕ, zero, suc, ◌-◌, Bool, true, false, not, ◌&&◌, ◌||◌, Option, none, some, List, [], ◌∷◌, ◌++◌,
  ◌==◌, if◌then◌else◌, length, get_elem?, set, take,
}
use neoswc.Prelude.Int.{ℤ, pos, negsuc, eqb_ℤ, ltb_ℤ}

-- `struct binding`
pub record Binding : Type 0 where
  pub value : ℕ
  pub modifiers : ℕ
  pub handler : ℕ

-- `struct axis_binding`; the handler may be NULL.
pub record AxisBinding : Type 0 where
  pub axis : ℕ
  pub modifiers : ℕ
  pub handler : Option ℕ

-- The three arrays
pub record Bindings : Type 0 where
  pub key_bindings : List Binding
  pub button_bindings : List Binding
  pub axis_bindings : List AxisBinding

-- `enum swc_binding_type`, and any other value
pub data BindingType : Type 0 where
  key button other : BindingType

-- `xkb_state_key_get_one_sym`, and the symbols at level 0 of `xkb_keymap_key_get_syms_by_level`
pub record Keymap : Type 0 where
  pub one_sym : ℕ → ℕ
  pub level_0 : ℕ → Option ℕ

-- `SWC_MOD_ANY`
abbrev pub mod_any : ℕ
mod_any = 4294967295

abbrev pub matches : ℕ → ℕ → Binding → Bool
matches modifiers value b =
    (b.value == value) && ((b.modifiers == modifiers) || (b.modifiers == mod_any))

abbrev pub next : Option ℕ → Option ℕ
next none = none
next (some i) = some (suc i)

-- `find_binding`: the slot of the first that matches
unfoldable pub find_binding : List Binding → ℕ → ℕ → Option ℕ
find_binding [] modifiers value = none
find_binding (b ∷ bs) modifiers value =
    let rest = find_binding bs modifiers value in
    if matches modifiers value b then some zero else next rest

-- `find_key_binding`
unfoldable pub find_key_binding : Keymap → List Binding → ℕ → ℕ → Option ℕ
find_key_binding map bs modifiers k = elim (find_binding bs modifiers (map.one_sym k)) [
  | some i ↦ some i
  | none ↦ elim (map.level_0 k) [ none ↦ none | some sym ↦ find_binding bs modifiers sym ]
]

-- `find_button_binding`
abbrev pub find_button_binding : List Binding → ℕ → ℕ → Option ℕ
find_button_binding bs modifiers value = find_binding bs modifiers value

-- `find_axis_binding`
unfoldable pub find_axis_binding : List AxisBinding → ℕ → ℕ → Option AxisBinding
find_axis_binding [] modifiers axis = none
find_axis_binding (b ∷ bs) modifiers axis =
    if (b.axis == axis) && ((b.modifiers == modifiers) || (b.modifiers == mod_any))
    then some b
    else find_axis_binding bs modifiers axis

-- A call of a handler: which, with which value, and whether for a press.
pub record HandlerCall : Type 0 where
  pub called : ℕ
  pub with_value : ℕ
  pub state : Bool

abbrev pub call_slot : List Binding → ℕ → Bool → Option HandlerCall
call_slot bs i state = elim (get_elem? bs i) [
  | none ↦ none
  | some b ↦ some (record { called = b.handler; with_value = b.value; state = state })
]

-- `handle_binding` with what its `find_binding` argument answers. `slot` is `press->data`; what is
-- returned is its new value, the call, and whether the press is taken.
unfoldable pub handle_binding : List Binding → Option ℕ → ℕ → Bool → ℕ × Option HandlerCall × Bool
handle_binding bs found slot true = elim found [
  | none ↦ (slot, none, false)
  | some i ↦ (i, call_slot bs i true, true)
]
handle_binding bs found slot false = (slot, call_slot bs slot false, true)

-- `handle_key`
abbrev pub handle_key : Keymap → Bindings → ℕ → ℕ → ℕ → Bool → ℕ × Option HandlerCall × Bool
handle_key map b modifiers k slot state =
    handle_binding b.key_bindings (find_key_binding map b.key_bindings modifiers k) slot state

-- `handle_button`
abbrev pub handle_button : Bindings → ℕ → ℕ → ℕ → Bool → ℕ × Option HandlerCall × Bool
handle_button b modifiers k slot state =
    handle_binding b.button_bindings (find_button_binding b.button_bindings modifiers k) slot state

-- The number of 120ths of a step; `scaled` is `(int32_t)(wl_fixed_to_double(value) * 120.0)`.
unfoldable pub delta120 : (ℤ → ℤ) → ℤ → ℤ → ℤ
delta120 scaled value value120 =
    if eqb_ℤ value120 (pos 0) && not (eqb_ℤ value (pos 0))
    then if eqb_ℤ (scaled value) (pos 0)
      then if ltb_ℤ (pos 0) value then pos 1 else negsuc 0
      else scaled value
    else value120

-- `handle_axis`: the handler with the delta that it is called with, or `none` if it is not taken
unfoldable pub handle_axis : (ℤ → ℤ) → Bindings → ℕ → ℕ → ℤ → ℤ → Option (ℕ × ℤ)
handle_axis scaled b modifiers axis value value120 =
    elim (find_axis_binding b.axis_bindings modifiers axis) [
      | none ↦ none
      | some a ↦ elim a.handler [ none ↦ none | some h ↦ some (h, delta120 scaled value value120) ]
    ]

-- The results of `swc_add_binding`
pub data Added : Type 0 where
  added einval enomem : Added

-- `swc_add_binding`
unfoldable pub add_binding : Bool → Bindings → BindingType → Binding → Bindings × Added
add_binding allocated b other e = (b, einval)
add_binding allocated b key e =
    if not allocated
    then (b, enomem)
    else (record b { key_bindings = b.key_bindings ++ (e ∷ []) }, added)
add_binding allocated b button e =
    if not allocated
    then (b, enomem)
    else (record b { button_bindings = b.button_bindings ++ (e ∷ []) }, added)

-- `*b = *last` and the shorter array
unfoldable pub remove_slot : List Binding → ℕ → List Binding
remove_slot bs i = elim (get_elem? bs (length bs - 1)) [
  | none ↦ bs
  | some last ↦ take (length bs - 1) (if suc i == length bs then bs else set bs i last)
]

-- `swc_remove_binding` on one of the arrays
unfoldable pub remove_from : List Binding → ℕ → ℕ → List Binding
remove_from bs modifiers value = elim (find_binding bs modifiers value) [
  | none ↦ bs
  | some i ↦ remove_slot bs i
]

-- `swc_remove_binding`
unfoldable pub remove_binding : Bindings → BindingType → ℕ → ℕ → Bindings
remove_binding b other modifiers value = b
remove_binding b key modifiers value = record b {
  key_bindings = remove_from b.key_bindings modifiers value;
}
remove_binding b button modifiers value = record b {
  button_bindings = remove_from b.button_bindings modifiers value;
}

-- `swc_add_axis_binding`
unfoldable pub add_axis_binding : Bool → Bindings → AxisBinding → Bindings × Added
add_axis_binding allocated b e =
    if not allocated
    then (b, enomem)
    else (record b { axis_bindings = b.axis_bindings ++ (e ∷ []) }, added)

-- `bindings_initialize`, and `bindings_finalize`, which releases the arrays and empties them
unfoldable pub bindings_initialize : Bindings
bindings_initialize = record { key_bindings = []; button_bindings = []; axis_bindings = [] }

unfoldable pub bindings_finalize : Bindings → Bindings
bindings_finalize b = bindings_initialize
