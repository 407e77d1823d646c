-- ===== src/Keyboard/Keys.antt =====
-- libswc/keyboard.c: presses and releases, the modifiers, and the reset of the keyboard.
use Prim.Native.Nat.{bit_or}
use neoswc.Prelude.{
  ℕ, Bool, true, false, not, Option, none, some, List, [], ◌∷◌, ◌++◌, ◌==◌, if◌then◌else◌,
}
use neoswc.Focus.{
  Resource, View, input_focus_set, input_focus_add_resource, input_focus_remove_resource,
}
use neoswc.Keyboard.{
  Handler, Key, ModifierState, Surroundings, Keyboard, mask_to_swc, same_state, no_modifiers,
}
use neoswc.Keyboard.Handlers.{handler_key, handler_modifiers}

unfoldable pub find_key : ℕ → List Key → Option Key
find_key v [] = none
find_key v (k ∷ ks) = if k.value == v then some k else find_key v ks

-- `array_remove` of the key that was found
unfoldable pub remove_key : ℕ → List Key → List Key
remove_key v [] = []
remove_key v (k ∷ ks) = if k.value == v then ks else k ∷ remove_key v ks

module _ {X : Type 0} {S : Type 0} where
  -- The loop over the handlers for a new press: the first that takes it, and `press.data`.
  unfoldable pub offer :
      Surroundings X S → List Handler → Keyboard X S → ℕ → ℕ → Keyboard X S × ℕ × Option Handler
  offer env [] k value slot = (k, slot, none)
  offer env (h ∷ hs) k value slot =
      let (k', slot', taken) = handler_key env h k value slot true in
      let others = offer env hs k' value slot' in if taken then (k', slot', some h) else others

  -- The loop over the handlers at the end of `keyboard_handle_key`
  unfoldable pub run_modifiers : List Handler → ModifierState → Keyboard X S → Keyboard X S
  run_modifiers [] m k = k
  run_modifiers (h ∷ hs) m k = run_modifiers hs m (handler_modifiers h m k)

  -- The end of `keyboard_handle_key`, from `update_xkb_state` on
  unfoldable pub update_xkb_state : Surroundings X S → Keyboard X S → ℕ → Bool → Keyboard X S
  update_xkb_state env k value state =
      let xkb' = env.update_key k.xkb value state in
      let m = env.serialize xkb' in
      if same_state m k.modifier_state
      then record k { xkb = xkb' }
      else run_modifiers k.handlers m (record k {
        xkb = xkb';
        modifier_state = m;
        modifiers = mask_to_swc env.indices (bit_or m.depressed m.latched);
      })

  -- `key->handler->key`, if there is one, for a release
  unfoldable pub release_to :
      Surroundings X S → Option Handler → Keyboard X S → ℕ → ℕ → Keyboard X S
  release_to env none k value slot = k
  release_to env (some h) k value slot = (handler_key env h k value slot false).0

  abbrev pub release_key : Surroundings X S → Keyboard X S → Key → Keyboard X S
  release_key env k key = release_to env key.handler k key.value key.slot

  -- A press of a key that is not held: it is offered, then stands at the end of `keys`.
  unfoldable pub press_key : Surroundings X S → Keyboard X S → ℕ → Keyboard X S
  press_key env k value =
      if not env.key_allocated
      then k
      else let (k', slot, h) = offer env k.handlers k value 0 in
        record k' { keys = k'.keys ++ (record { value = value; slot = slot; handler = h } ∷ []) }

  -- `keyboard_handle_key`
  unfoldable pub keyboard_handle_key : Surroundings X S → Keyboard X S → ℕ → Bool → Keyboard X S
  keyboard_handle_key env k value state = elim (find_key value k.keys) [
    | some key ↦
        if state
        then k
        else let k' = release_key env k key in
          update_xkb_state env (record k' { keys = remove_key value k'.keys }) value state
    | none ↦ if not state then k else update_xkb_state env (press_key env k value) value state
  ]

  -- The loop of `keyboard_reset`
  unfoldable pub release_keys : Surroundings X S → List Key → Keyboard X S → Keyboard X S
  release_keys env [] k = k
  release_keys env (key ∷ ks) k = release_keys env ks (release_key env k key)

  -- `keyboard_reset`; the assertion on `client_keys` is not part of it.
  unfoldable pub keyboard_reset : Surroundings X S → Keyboard X S → Keyboard X S × Bool
  keyboard_reset env k =
      let k' = record (release_keys env k.keys k) {
        keys = [];
        modifier_state = no_modifiers;
        modifiers = 0;
      } in
      if not env.state_new then (k', false) else (record k' { xkb = env.new_state }, true)

  -- `keyboard_set_focus`
  abbrev pub keyboard_set_focus : Keyboard X S → Option View → Keyboard X S
  keyboard_set_focus k v = record k { focus = input_focus_set k.focus v }

  -- `keyboard_bind` for an object that could be made, less the keymap and the repeat rate
  abbrev pub keyboard_bind : Keyboard X S → Resource → Keyboard X S
  keyboard_bind k r = record k { focus = input_focus_add_resource k.focus r }

  -- `unbind`
  abbrev pub unbind : Keyboard X S → ℕ → Keyboard X S
  unbind k i = record k { focus = input_focus_remove_resource k.focus i }
