-- ===== src/Keyboard/Held.antt =====
-- libswc/keyboard.c: proofs about the arrays of keys, under presses, releases and the reset.
use neoswc.Prelude.{
  ℕ, ◌≡◌, refl, Bool, true, false, not, ◌&&◌, Option, none, some, List, [], ◌∷◌, ◌++◌, arith,
  if◌then◌else◌, if_ind, option_ind, sym, ◌∙◌, ap,
}
use mathlib.Core.List.{append-nil}
use neoswc.Keyboard.{
  Handler, Key, ModifierState, Surroundings, Keyboard, bindings_handler, observer_handler,
  client_handler, same_state,
}
use neoswc.Keyboard.Handlers.{
  handler_key, handler_modifiers, client_handle_key, observer_handle_key, client_handle_modifiers,
  observer_handle_modifiers, remove_value,
}
use neoswc.Keyboard.Keys.{
  find_key, remove_key, offer, run_modifiers, update_xkb_state, release_to, release_key, press_key,
  keyboard_handle_key, release_keys, keyboard_reset,
}
use neoswc.Keyboard.Values.{
  of_client, client_values, distinct_values, client_values-append, client_values-remove,
  distinct_values-append, distinct_values-remove, found_value, client_values-head,
}

module _ {X : Type 0} {S : Type 0} where
  pub record Held (k : Keyboard X S) : Type 0 where
    pub exact : k.client_keys ≡ client_values k.keys
    pub once : distinct_values k.keys ≡ true

module _ {X : Type 0} {S : Type 0} where
  client_press :
      (allocated : Bool) (k : Keyboard X S) (value : ℕ)
      → let r = client_handle_key allocated k value true in
        (r.0.keys ≡ k.keys) × (r.0.client_keys ≡ k.client_keys ++ (if r.1 then value ∷ [] else []))
  unfolding client_handle_key
  client_press true k value = (refl, refl)
  client_press false k value = (refl, sym (append-nil k.client_keys))

module _ {X : Type 0} {S : Type 0} (env : Surroundings X S) where
  -- What a call of a handler does to the two arrays
  handler_key-press :
      (h : Handler) (k : Keyboard X S) (value slot : ℕ)
      → let r = handler_key env h k value slot true in
        (r.0.keys ≡ k.keys)
        × (r.0.client_keys
            ≡ k.client_keys ++ (if of_client (some h) && r.2 then value ∷ [] else []))
  unfolding handler_key client_handle_key observer_handle_key
  handler_key-press bindings_handler k value slot = (refl, sym (append-nil k.client_keys))
  handler_key-press observer_handler k value slot = (refl, sym (append-nil k.client_keys))
  handler_key-press client_handler k value slot = client_press env.client_key_allocated k value

  release_to-arrays :
      (ho : Option Handler) (k : Keyboard X S) (value slot : ℕ)
      → let k' = release_to env ho k value slot in
        (k'.keys ≡ k.keys)
        × (k'.client_keys
            ≡ (if of_client ho then remove_value value k.client_keys else k.client_keys))
  unfolding release_to handler_key client_handle_key observer_handle_key
  release_to-arrays none k value slot = (refl, refl)
  release_to-arrays (some bindings_handler) k value slot = (refl, refl)
  release_to-arrays (some observer_handler) k value slot = (refl, refl)
  release_to-arrays (some client_handler) k value slot = (refl, refl)

  offer-arrays :
      (hs : List Handler) (k : Keyboard X S) (value slot : ℕ)
      → let r = offer env hs k value slot in
        (r.0.keys ≡ k.keys)
        × (r.0.client_keys ≡ k.client_keys ++ (if of_client r.2 then value ∷ [] else []))
  unfolding offer
  offer-arrays [] k value slot = (refl, sym (append-nil k.client_keys))
  offer-arrays (h ∷ hs) k value slot =
      let r = handler_key env h k value slot true in
      let here = handler_key-press h k value slot in
      let there = offer-arrays hs r.0 value r.1 in
      ground (arith, here, there, append-nil k.client_keys)

  handler_modifiers-arrays :
      (h : Handler) (m : ModifierState) (k : Keyboard X S)
      → ((handler_modifiers h m k).keys ≡ k.keys)
        × ((handler_modifiers h m k).client_keys ≡ k.client_keys)
  unfolding handler_modifiers observer_handle_modifiers client_handle_modifiers
  handler_modifiers-arrays bindings_handler m k = (refl, refl)
  handler_modifiers-arrays observer_handler m k = ground arith
  handler_modifiers-arrays client_handler m k = (refl, refl)

  run_modifiers-arrays :
      (hs : List Handler) (m : ModifierState) (k : Keyboard X S)
      → ((run_modifiers hs m k).keys ≡ k.keys)
        × ((run_modifiers hs m k).client_keys ≡ k.client_keys)
  unfolding run_modifiers
  run_modifiers-arrays [] m k = (refl, refl)
  run_modifiers-arrays (h ∷ hs) m k =
      let (a, b) = handler_modifiers-arrays h m k in
      let (c, d) = run_modifiers-arrays hs m (handler_modifiers h m k) in (c ∙ a, d ∙ b)

  update-arrays :
      (k : Keyboard X S) (value : ℕ) (state : Bool)
      → let k' = update_xkb_state env k value state in
        (k'.keys ≡ k.keys) × (k'.client_keys ≡ k.client_keys)
  unfolding update_xkb_state
  update-arrays k value state =
      let m = env.serialize (env.update_key k.xkb value state) in
      if_ind (λ (k' : Keyboard X S). (k'.keys ≡ k.keys) × (k'.client_keys ≡ k.client_keys))
        (same_state m k.modifier_state) (λ _. (refl, refl)) λ _. run_modifiers-arrays k.handlers m _

  press_key-Held :
      (k : Keyboard X S) (value : ℕ)
      → find_key value k.keys ≡ none
      → Held k
      → Held (press_key env k value)
  unfolding press_key
  press_key-Held k value new v =
      if_ind Held (not env.key_allocated) (λ _. v)
        λ _.
          let r = offer env k.handlers k value 0 in
          let (same, grown) = offer-arrays k.handlers k value 0 in
          let key : Key = record { value = value; slot = r.1; handler = r.2 } in
          record {
            exact =
                grown
                ∙ ap (λ l. l ++ (if of_client r.2 then value ∷ [] else [])) v.exact
                ∙ sym (client_values-append k.keys key)
                ∙ ap (λ l. client_values (l ++ (key ∷ []))) (sym same);
            once =
                ap (λ l. distinct_values (l ++ (key ∷ []))) same
                ∙ distinct_values-append k.keys key v.once new;
          }

  transport-Held :
      (k k' : Keyboard X S)
      → (k'.keys ≡ k.keys) × (k'.client_keys ≡ k.client_keys)
      → Held k
      → Held k'
  transport-Held k k' (a, b) v = record {
    exact = b ∙ v.exact ∙ ap client_values (sym a);
    once = ap distinct_values a ∙ v.once;
  }

  release_key-Held :
      (k : Keyboard X S) (value : ℕ) (key : Key)
      → find_key value k.keys ≡ some key
      → Held k
      → let k' = release_key env k key in Held (record k' { keys = remove_key value k'.keys })
  release_key-Held k value key found v =
      let (same, rest) = release_to-arrays key.handler k key.value key.slot in
      record {
        exact =
            rest
            ∙ ap
                (λ w. if of_client key.handler then remove_value w k.client_keys else k.client_keys)
                (found_value value k.keys key found)
            ∙ ap (λ l. if of_client key.handler then remove_value value l else l) v.exact
            ∙ sym (client_values-remove value k.keys key found)
            ∙ ap (λ l. client_values (remove_key value l)) (sym same);
        once =
            ap (λ l. distinct_values (remove_key value l)) same
            ∙ distinct_values-remove value k.keys v.once;
      }

  -- Whatever key is pressed or released, repeated or never pressed, whatever the handlers answer and
  -- the allocator, the keys that the clients are told are held are exactly those whose press the
  -- client's handler took and that are still held, in the order of their presses; and no key is held
  -- twice.
  pub keyboard_handle_key-Held :
      (k : Keyboard X S) (value : ℕ) (state : Bool)
      → Held k
      → Held (keyboard_handle_key env k value state)
  unfolding keyboard_handle_key
  keyboard_handle_key-Held k value state v =
      option_ind Held (find_key value k.keys)
        (λ new.
          if_ind Held (not state) (λ _. v)
            λ _.
              transport-Held (press_key env k value) _
                (update-arrays (press_key env k value) value state) (press_key-Held k value new v))
        λ key found.
          if_ind Held state (λ _. v)
            λ _.
              transport-Held _ _ (update-arrays _ value state)
                (release_key-Held k value key found v)

  release_keys-clears :
      (ks : List Key) (k : Keyboard X S)
      → k.client_keys ≡ client_values ks
      → (release_keys env ks k).client_keys ≡ []
  unfolding release_keys
  release_keys-clears [] k e = e
  release_keys-clears (key ∷ ks) k e = release_keys-clears ks (release_key env k key) (
      (release_to-arrays key.handler k key.value key.slot).1
      ∙ client_values-head key ks k.client_keys e)

  -- When the keyboard is reset, the releases that it simulates empty the array of the clients' keys,
  -- which is what the assertion behind the loop claims; so the reset ends with no key held, by a
  -- client or at all.
  pub keyboard_reset-clears :
      (k : Keyboard X S)
      → Held k
      → ((release_keys env k.keys k).client_keys ≡ [])
        × ((keyboard_reset env k).0.keys ≡ [])
        × Held (keyboard_reset env k).0
  unfolding keyboard_reset
  keyboard_reset-clears k v =
      let empty = release_keys-clears k.keys k v.exact in
      (
        empty,
        ground arith,
        if_ind (λ (r : Keyboard X S × Bool). Held r.0) (not env.state_new)
            (λ _. record { exact = empty; once = refl }) λ _. record { exact = empty; once = refl },
      )
