-- ===== src/Keyboard/Synced.antt =====
-- libswc/keyboard.c: proofs about the modifiers and the state of xkbcommon.
use Prim.Native.Nat.{bit_or}
use neoswc.Prelude.{
  ℕ, ◌≡◌, refl, Bool, true, false, not, Option, none, some, List, [], ◌∷◌, arith, if_ind,
  option_ind, sym, ◌∙◌, ap,
}
use neoswc.Keyboard.{
  Handler, ModifierState, Surroundings, Keyboard, bindings_handler, observer_handler,
  client_handler, same_state, mask_to_swc,
}
use neoswc.Keyboard.Handlers.{
  handler_key, handler_modifiers, client_handle_key, observer_handle_key, client_handle_modifiers,
  observer_handle_modifiers,
}
use neoswc.Keyboard.Keys.{
  find_key, offer, run_modifiers, update_xkb_state, release_to, release_key, press_key, remove_key,
  keyboard_handle_key,
}

module _ {X : Type 0} {S : Type 0} where
  -- The parts of the keyboard that no handler touches
  abbrev Frame : Keyboard X S → Keyboard X S → Type 0
  Frame k k' =
      (k'.xkb ≡ k.xkb) × (k'.modifier_state ≡ k.modifier_state) × (k'.modifiers ≡ k.modifiers)

  Frame-trans : (a b c : Keyboard X S) → Frame a b → Frame b c → Frame a c
  Frame-trans a b c (p, q, r) (p', q', r') = (p' ∙ p, q' ∙ q, r' ∙ r)

module _ {X : Type 0} {S : Type 0} (env : Surroundings X S) where
  pub record Synced (k : Keyboard X S) : Type 0 where
    pub state_kept : k.modifier_state ≡ env.serialize k.xkb
    pub mask :
        k.modifiers
        ≡ mask_to_swc env.indices (bit_or k.modifier_state.depressed k.modifier_state.latched)

  handler_key-Frame :
      (h : Handler) (k : Keyboard X S) (value slot : ℕ) (state : Bool)
      → Frame k (handler_key env h k value slot state).0
  unfolding handler_key client_handle_key observer_handle_key
  handler_key-Frame bindings_handler k value slot state = (refl, refl, refl)
  handler_key-Frame observer_handler k value slot state = (refl, refl, refl)
  handler_key-Frame client_handler k value slot true = ground arith
  handler_key-Frame client_handler k value slot false = (refl, refl, refl)

  offer-Frame :
      (hs : List Handler) (k : Keyboard X S) (value slot : ℕ)
      → Frame k (offer env hs k value slot).0
  unfolding offer
  offer-Frame [] k value slot = (refl, refl, refl)
  offer-Frame (h ∷ hs) k value slot =
      let r = handler_key env h k value slot true in
      let here = handler_key-Frame h k value slot true in
      if_ind (λ (x : Keyboard X S × ℕ × Option Handler). Frame k x.0) r.2 (λ _. here)
        λ _. Frame-trans k r.0 (offer env hs r.0 value r.1).0 here (offer-Frame hs r.0 value r.1)

  release_to-Frame :
      (ho : Option Handler) (k : Keyboard X S) (value slot : ℕ)
      → Frame k (release_to env ho k value slot)
  unfolding release_to
  release_to-Frame none k value slot = (refl, refl, refl)
  release_to-Frame (some h) k value slot = handler_key-Frame h k value slot false

  run_modifiers-Frame :
      (hs : List Handler) (m : ModifierState) (k : Keyboard X S) → Frame k (run_modifiers hs m k)
  unfolding run_modifiers handler_modifiers observer_handle_modifiers client_handle_modifiers
  run_modifiers-Frame [] m k = (refl, refl, refl)
  run_modifiers-Frame (bindings_handler ∷ hs) m k = run_modifiers-Frame hs m k
  run_modifiers-Frame (observer_handler ∷ hs) m k =
      let k' = observer_handle_modifiers k in
      Frame-trans k k' (run_modifiers hs m k') (ground arith) (run_modifiers-Frame hs m k')
  run_modifiers-Frame (client_handler ∷ hs) m k =
      let k' = client_handle_modifiers k m in
      Frame-trans k k' (run_modifiers hs m k') (refl, refl, refl) (run_modifiers-Frame hs m k')

  Frame-Synced : (k k' : Keyboard X S) → Frame k k' → Synced k → Synced k'
  Frame-Synced k k' (p, q, r) v = record {
    state_kept = q ∙ v.state_kept ∙ ap env.serialize (sym p);
    mask = r ∙ v.mask ∙ ap (λ m. mask_to_swc env.indices (bit_or m.depressed m.latched)) (sym q);
  }

  same_state-eq : (a b : ModifierState) → same_state a b ≡ true → b ≡ a
  same_state-eq a b h = ground (arith, h)

  update-Synced :
      (k : Keyboard X S) (value : ℕ) (state : Bool)
      → Synced k
      → Synced (update_xkb_state env k value state)
  unfolding update_xkb_state
  update-Synced k value state v =
      let x = env.update_key k.xkb value state in
      let m = env.serialize x in
      if_ind Synced (same_state m k.modifier_state)
        (λ h. record { state_kept = same_state-eq m k.modifier_state h; mask = v.mask })
        λ _.
          let k' : Keyboard X S = record k {
            xkb = x;
            modifier_state = m;
            modifiers = mask_to_swc env.indices (bit_or m.depressed m.latched);
          } in
          Frame-Synced k' (run_modifiers k.handlers m k') (run_modifiers-Frame k.handlers m k')
            (record { state_kept = refl; mask = refl })

  press_key-Synced : (k : Keyboard X S) (value : ℕ) → Synced k → Synced (press_key env k value)
  unfolding press_key
  press_key-Synced k value v =
      if_ind Synced (not env.key_allocated) (λ _. v)
        λ _.
          let w =
            Frame-Synced k (offer env k.handlers k value 0).0 (offer-Frame k.handlers k value 0)
              v in
          record { state_kept = w.state_kept; mask = w.mask }

  -- Whatever key is pressed or released, and whatever the handlers do, the modifiers that swc
  -- reports and its copy of the modifier state stay those of xkbcommon's state: the copy is what is
  -- serialised from it, and the mask has exactly the bits of the depressed and latched modifiers.
  pub keyboard_handle_key-Synced :
      (k : Keyboard X S) (value : ℕ) (state : Bool)
      → Synced k
      → Synced (keyboard_handle_key env k value state)
  unfolding keyboard_handle_key
  keyboard_handle_key-Synced k value state v =
      option_ind Synced (find_key value k.keys)
        (λ _.
          if_ind Synced (not state) (λ _. v)
            λ _. update-Synced (press_key env k value) value state (press_key-Synced k value v))
        λ key _.
          if_ind Synced state (λ _. v)
            λ _.
              let k' = release_key env k key in
              let w = Frame-Synced k k' (release_to-Frame key.handler k key.value key.slot) v in
              update-Synced (record k' { keys = remove_key value k'.keys }) value state
                (record { state_kept = w.state_kept; mask = w.mask })
