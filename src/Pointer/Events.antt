-- ===== src/Pointer/Events.antt =====
-- libswc/pointer.c: motion, buttons, scrolling and frames, as they reach the handlers.
use neoswc.Prelude.{
  ℕ, suc, ◌%◌, Bool, true, false, not, Option, none, some, List, [], ◌∷◌, ◌++◌, ◌==◌, if◌then◌else◌,
}
use neoswc.Prelude.Int.{ℤ, ◌+ℤ◌}
use neoswc.Focus.{
  Resource, View, input_focus_set, input_focus_add_resource, input_focus_remove_resource,
}
use neoswc.Pointer.{Handler, Link, Button, Scroll, Surroundings, Pointer, same_handler}
use neoswc.Pointer.Position.{clip_position, update_cursor}
use neoswc.Pointer.Handlers.{handler_motion, handler_button, handler_axis, handler_frame}

-- `handler->pending = true`
unfoldable pub set_pending : Handler → List Link → List Link
set_pending h [] = []
set_pending h (l ∷ ls) =
    let others = set_pending h ls in
    if same_handler l.handler h then record l { pending = true } ∷ others else l ∷ others

unfoldable pub find_button : ℕ → List Button → Option Button
find_button v [] = none
find_button v (b ∷ bs) = if b.value == v then some b else find_button v bs

-- `array_remove` of the button that was found
unfoldable pub remove_button : ℕ → List Button → List Button
remove_button v [] = []
remove_button v (b ∷ bs) = if b.value == v then bs else b ∷ remove_button v bs

-- `pointer_get_button`
unfoldable pub get_button : ℕ → List Button → Option Button
get_button serial [] = none
get_button serial (b ∷ bs) = if b.serial == serial then some b else get_button serial bs

module _ {R : Type 0} {S : Type 0} where
  abbrev pub mark : Handler → Pointer R S → Pointer R S
  mark h p = record p { handlers = set_pending h p.handlers }

  -- The loops over the handlers: the first that takes the event is marked.
  unfoldable pub offer_motion : Surroundings R S → List Link → Pointer R S → Pointer R S
  offer_motion env [] p = p
  offer_motion env (l ∷ ls) p =
      let (p', taken) = handler_motion env l.handler p in
      let others = offer_motion env ls p' in if taken then mark l.handler p' else others

  unfoldable pub offer_axis : Surroundings R S → List Link → Pointer R S → Scroll → Pointer R S
  offer_axis env [] p scroll = p
  offer_axis env (l ∷ ls) p scroll =
      let (p', taken) = handler_axis env l.handler p scroll in
      let others = offer_axis env ls p' scroll in if taken then mark l.handler p' else others

  unfoldable pub offer_button :
      Surroundings R S → List Link → Pointer R S → ℕ → ℕ → Pointer R S × Option Handler
  offer_button env [] p value serial = (p, none)
  offer_button env (l ∷ ls) p value serial =
      let (p', taken) = handler_button env l.handler p value serial true in
      let others = offer_button env ls p' value serial in
      if taken then (mark l.handler p', some l.handler) else others

  -- The release of a button, if a handler took its press
  unfoldable pub release_to : Surroundings R S → Option Handler → Pointer R S → ℕ → ℕ → Pointer R S
  release_to env none p value serial = p
  release_to env (some h) p value serial = mark h (handler_button env h p value serial false).0

  unfoldable pub release_button : Surroundings R S → Pointer R S → ℕ → ℕ → Pointer R S
  release_button env p value serial = elim (find_button value p.buttons) [
    | none ↦ p
    | some b ↦
        let p' = release_to env b.handler p b.value serial in
        record p' { buttons = remove_button value p'.buttons }
  ]

  unfoldable pub press_button : Surroundings R S → Pointer R S → ℕ → ℕ → Pointer R S
  press_button env p value serial =
      if not env.button_allocated
      then p
      else let (p', h) = offer_button env p.handlers p value serial in
        record p' {
          buttons = p'.buttons ++ (record { value = value; serial = serial; handler = h } ∷ []);
        }

  -- `pointer_handle_button`; a handler that is offered a press does not look for its button.
  unfoldable pub pointer_handle_button : Surroundings R S → Pointer R S → ℕ → Bool → Pointer R S
  pointer_handle_button env p value pressed =
      let serial = suc p.last_serial % 4294967296 in
      let p' = record p { last_serial = serial } in
      if pressed then press_button env p' value serial else release_button env p' value serial

  -- `pointer_handle_axis`
  abbrev pub pointer_handle_axis : Surroundings R S → Pointer R S → Scroll → Pointer R S
  pointer_handle_axis env p scroll = offer_axis env p.handlers p scroll

  -- `pointer_handle_absolute_motion`
  unfoldable pub pointer_handle_absolute_motion :
      Surroundings R S → Pointer R S → ℤ → ℤ → Pointer R S
  pointer_handle_absolute_motion env p x y =
      let p' = clip_position env p x y in update_cursor env (offer_motion env p'.handlers p')

  -- `pointer_handle_relative_motion`
  abbrev pub pointer_handle_relative_motion : Surroundings R S → Pointer R S → ℤ → ℤ → Pointer R S
  pointer_handle_relative_motion env p dx dy =
      pointer_handle_absolute_motion env p (p.x +ℤ dx) (p.y +ℤ dy)

  abbrev pub run_frame : Option (Pointer R S → Pointer R S) → Bool → Pointer R S → Pointer R S
  run_frame none pending p = p
  run_frame (some f) pending p = if pending then f p else p

  abbrev pub left_pending : Option (Pointer R S → Pointer R S) → Bool → Bool
  left_pending none pending = pending
  left_pending (some f) pending = false

  -- The loop of `pointer_handle_frame`: the links as they are left, and the pointer
  unfoldable pub run_frames : Surroundings R S → List Link → Pointer R S → List Link × Pointer R S
  run_frames env [] p = ([], p)
  run_frames env (l ∷ ls) p =
      let f = handler_frame env l.handler in
      let (ls', p') = run_frames env ls (run_frame f l.pending p) in
      (record l { pending = left_pending f l.pending } ∷ ls', p')

  -- `pointer_handle_frame`
  unfoldable pub pointer_handle_frame : Surroundings R S → Pointer R S → Pointer R S
  pointer_handle_frame env p =
      let (links, p') = run_frames env p.handlers p in
      update_cursor env (record p' { handlers = links })

  -- `pointer_set_focus`
  abbrev pub pointer_set_focus : Pointer R S → Option View → Pointer R S
  pointer_set_focus p v = record p { focus = input_focus_set p.focus v }

  -- `pointer_bind` for an object that could be made
  abbrev pub pointer_bind : Pointer R S → Resource → Pointer R S
  pointer_bind p r = record p { focus = input_focus_add_resource p.focus r }

  -- `unbind`
  abbrev pub unbind : Pointer R S → ℕ → Pointer R S
  unbind p i = record p { focus = input_focus_remove_resource p.focus i }
