-- ===== src/Pointer/Step.antt =====
-- libswc/pointer.c: all events of the pointer as steps, and proofs about the end of a frame.
use neoswc.Prelude.{
  ℕ, suc, ◌%◌, ◌≡◌, refl, ap, ◌∙◌, Bool, true, ◌&&◌, ◌||◌, Option, none, some, List, [], ◌∷◌, arith,
  if_ind, option_ind,
}
use neoswc.Prelude.Int.{ℤ, ◌+ℤ◌}
use neoswc.Pointer.{
  Handler, client_handler, observer_handler, other_handler, Link, Scroll, Surroundings, Pointer,
  same_handler,
}
use neoswc.Pointer.Handlers.{
  handler_frame, handler_button, client_handle_frame, client_handle_button, swc_pointer_send_button,
  swc_pointer_send_axis, is_empty,
}
use neoswc.Pointer.Events.{
  pointer_handle_button, pointer_handle_axis, pointer_handle_absolute_motion,
  pointer_handle_relative_motion, run_frame, run_frames, pointer_handle_frame,
}
use neoswc.Pointer.Framed.{
  listed, waiting, is_none, Framed, handler_button-Same, button-Framed, motion-Framed,
  offer_axis-Framed,
}

-- The calls of the devices and of the compositor
pub data Event : Type 0 where
  button : ℕ → Bool → Event
  scroll : Scroll → Event
  absolute_motion relative_motion : ℤ → ℤ → Event
  frame : Event
  sent_button : ℕ → Bool → Event
  sent_axis : ℕ → ℕ → ℤ → Event

module _ {R : Type 0} {S : Type 0} (env : Surroundings R S) where
  run_frames-listed :
      (ls : List Link) (p : Pointer R S) → listed (run_frames env ls p).0 ≡ listed ls
  unfolding run_frames
  run_frames-listed [] p = refl
  run_frames-listed (l ∷ ls) p =
      ap (λ b. same_handler l.handler client_handler || b)
        (run_frames-listed ls (run_frame (handler_frame env l.handler) l.pending p))

  -- A frame of one handler does not give the frame a source, and that of the client takes it.
  run_frame-source :
      (h : Handler) (pending : Bool) (p : Pointer R S)
      → let p' = run_frame (handler_frame env h) pending p in
        (is_none p.client_axis_source || (same_handler h client_handler && pending)) ≡ true
        → is_none p'.client_axis_source ≡ true
  unfolding handler_frame client_handle_frame
  run_frame-source client_handler pending p e = ground (arith, e)
  run_frame-source observer_handler pending p e = ground (arith, e)
  run_frame-source (other_handler n) pending p e =
      option_ind
        (λ (f : Option (Pointer R S → Pointer R S)).
          is_none (run_frame f pending p).client_axis_source ≡ true)
        (env.other n).frame (λ _. ground (arith, e)) λ g _. ground (arith, e)

  run_frames-source :
      (ls : List Link) (p : Pointer R S)
      → (is_none p.client_axis_source || waiting ls) ≡ true
      → is_none (run_frames env ls p).1.client_axis_source ≡ true
  unfolding run_frames
  run_frames-source [] p e = ground (arith, e)
  run_frames-source (l ∷ ls) p e =
      let p' = run_frame (handler_frame env l.handler) l.pending p in
      run_frames-source ls p' (ground (arith, e, run_frame-source l.handler l.pending p))

  source_none : (s : Option ℕ) → is_none s ≡ true → s ≡ none
  source_none none e = refl
  source_none (some s) e = ground (arith, e)

  unfoldable pub step : Pointer R S → Event → Pointer R S
  step p (button value pressed) = pointer_handle_button env p value pressed
  step p (scroll s) = pointer_handle_axis env p s
  step p (absolute_motion x y) = pointer_handle_absolute_motion env p x y
  step p (relative_motion x y) = pointer_handle_relative_motion env p x y
  step p frame = pointer_handle_frame env p
  step p (sent_button value pressed) = swc_pointer_send_button env p value pressed
  step p (sent_axis wheel axis value120) = swc_pointer_send_axis env p wheel axis value120

  sent_button-Framed :
      (p : Pointer R S) (value : ℕ) (pressed : Bool)
      → Framed p
      → Framed (swc_pointer_send_button env p value pressed)
  unfolding swc_pointer_send_button handler_button client_handle_frame
  sent_button-Framed p value pressed f =
      let serial = suc p.last_serial % 4294967296 in
      let p' : Pointer R S = record p { last_serial = serial } in
      let r = client_handle_button p' value serial pressed in
      let same = handler_button-Same env client_handler p' value serial pressed in
      if_ind Framed r.1
        (λ _. record { client_listed = ap listed same.0 ∙ f.client_listed; source_waits = refl })
        λ _. f

  sent_axis-Framed :
      (p : Pointer R S) (wheel axis : ℕ) (value120 : ℤ)
      → Framed p
      → Framed (swc_pointer_send_axis env p wheel axis value120)
  unfolding swc_pointer_send_axis client_handle_frame
  sent_axis-Framed p wheel axis value120 f =
      if_ind Framed (is_empty p.focus.active) (λ _. f)
        λ _. record { client_listed = f.client_listed; source_waits = refl }

  frame-Framed :
      (p : Pointer R S)
      → Framed p
      → ((pointer_handle_frame env p).client_axis_source ≡ none)
        × Framed (pointer_handle_frame env p)
  unfolding pointer_handle_frame
  frame-Framed p f =
      let ended = run_frames-source p.handlers p f.source_waits in
      (
        source_none (run_frames env p.handlers p).1.client_axis_source ended,
        record {
          client_listed = run_frames-listed p.handlers p ∙ f.client_listed;
          source_waits = ground (arith, ended);
        },
      )

  each-Framed : (p : Pointer R S) (event : Event) → Framed p → Framed (step p event)
  unfolding step
  each-Framed p (button value pressed) f = button-Framed env p value pressed f
  each-Framed p (scroll s) f = offer_axis-Framed env p.handlers p s f
  each-Framed p (absolute_motion x y) f = motion-Framed env p x y f
  each-Framed p (relative_motion x y) f = motion-Framed env p (p.x +ℤ x) (p.y +ℤ y) f
  each-Framed p frame f = (frame-Framed p f).1
  each-Framed p (sent_button value pressed) f = sent_button-Framed p value pressed f
  each-Framed p (sent_axis wheel axis value120) f = sent_axis-Framed p wheel axis value120 f

  -- Whatever the buttons, the scrolling, the motion and the compositor do, and whoever handles it:
  -- while the client has been told the source of an axis, its handler waits for the end of the frame;
  -- and when the frame ends, after any of these events, no source is left over for the next one.
  pub step-Framed :
      (p : Pointer R S) (event : Event)
      → Framed p
      → Framed (step p event)
        × ((pointer_handle_frame env (step p event)).client_axis_source ≡ none)
  step-Framed p event f = let f' = each-Framed p event f in (f', (frame-Framed (step p event) f').0)
