-- ===== src/Pointer/Framed.antt =====
-- libswc/pointer.c: proofs about the source of the axes in a frame, for motion, buttons and axes.
use neoswc.Prelude.{
  ℕ, suc, ◌%◌, ◌≡◌, refl, ap, ◌∙◌, Bool, true, false, not, ◌&&◌, ◌||◌, Option, none, some, List, [],
  ◌∷◌, arith, if_ind, option_ind,
}
use neoswc.Prelude.Int.{ℤ}
use neoswc.LayerShell.{Box}
use neoswc.Pointer.{
  Handler, client_handler, observer_handler, other_handler, Link, Scroll, Surroundings, Pointer,
  same_handler,
}
use neoswc.Pointer.Position.{clip_position, recover_position, recover_in}
use neoswc.Pointer.Handlers.{
  is_empty, frame_source, kept_source, send_each, handler_motion, handler_button, handler_axis,
  client_handle_motion, client_handle_button, client_handle_axis, observer_handle_button, send_axis,
}
use neoswc.Pointer.Events.{
  set_pending, mark, offer_motion, offer_axis, offer_button, release_to, release_button,
  press_button, pointer_handle_button, pointer_handle_absolute_motion, find_button,
}

-- Whether the client's handler is in the list, and whether it waits for the end of the frame
abbrev pub listed : List Link → Bool
listed [] = false
listed (l ∷ ls) = same_handler l.handler client_handler || listed ls

abbrev pub waiting : List Link → Bool
waiting [] = false
waiting (l ∷ ls) = (same_handler l.handler client_handler && l.pending) || waiting ls

abbrev pub is_none : Option ℕ → Bool
is_none none = true
is_none (some _) = false

listed-set_pending : (h : Handler) (ls : List Link) → listed (set_pending h ls) ≡ listed ls
unfolding set_pending
listed-set_pending h [] = refl
listed-set_pending h (l ∷ ls) = ground (arith, listed-set_pending h ls)

waiting-set_pending :
    (h : Handler) (ls : List Link) → waiting ls ≡ true → waiting (set_pending h ls) ≡ true
unfolding set_pending
waiting-set_pending h [] e = ground (arith, e)
waiting-set_pending h (l ∷ ls) e = ground (arith, waiting-set_pending h ls, e)

waiting-set_client :
    (ls : List Link) → listed ls ≡ true → waiting (set_pending client_handler ls) ≡ true
unfolding set_pending
waiting-set_client [] e = ground (arith, e)
waiting-set_client (l ∷ ls) e = ground (arith, waiting-set_client ls, e)

module _ {R : Type 0} {S : Type 0} where
  pub record Framed (p : Pointer R S) : Type 0 where
    pub client_listed : listed p.handlers ≡ true
    pub source_waits : (is_none p.client_axis_source || waiting p.handlers) ≡ true

  -- What the handlers leave alone
  abbrev pub Same : Pointer R S → Pointer R S → Type 0
  Same p p' =
      (p'.handlers ≡ p.handlers)
      × (p'.client_axis_source ≡ p.client_axis_source)
      × (p'.buttons ≡ p.buttons)

  Same-Framed : (p p' : Pointer R S) → Same p p' → Framed p → Framed p'
  Same-Framed p p' (a, b, c) f = record {
    client_listed = ap listed a ∙ f.client_listed;
    source_waits = ground (arith, a, b, f.source_waits);
  }

  mark-Framed : (h : Handler) (p : Pointer R S) → Framed p → Framed (mark h p)
  mark-Framed h p f = record {
    client_listed = listed-set_pending h p.handlers ∙ f.client_listed;
    source_waits = ground (arith, waiting-set_pending h p.handlers, f.source_waits);
  }

  mark_client-Framed : (p : Pointer R S) → listed p.handlers ≡ true → Framed (mark client_handler p)
  mark_client-Framed p l = record {
    client_listed = listed-set_pending client_handler p.handlers ∙ l;
    source_waits = ground (arith, waiting-set_client p.handlers l);
  }

module _ {R : Type 0} {S : Type 0} (env : Surroundings R S) where
  handler_motion-Same : (h : Handler) (p : Pointer R S) → Same p (handler_motion env h p).0
  unfolding handler_motion client_handle_motion
  handler_motion-Same client_handler p = ground arith
  handler_motion-Same observer_handler p = (refl, refl, refl)
  handler_motion-Same (other_handler n) p =
      option_ind (λ (r : Pointer R S × Bool). Same p r.0) (env.other n).motion
        (λ _. (refl, refl, refl)) λ f _. (refl, refl, refl)

  pub handler_button-Same :
      (h : Handler) (p : Pointer R S) (value serial : ℕ) (state : Bool)
      → Same p (handler_button env h p value serial state).0
  unfolding handler_button client_handle_button observer_handle_button
  handler_button-Same client_handler p value serial state = ground arith
  handler_button-Same observer_handler p value serial state = (refl, refl, refl)
  handler_button-Same (other_handler n) p value serial state =
      option_ind (λ (r : Pointer R S × Bool). Same p r.0) (env.other n).button
        (λ _. (refl, refl, refl)) λ f _. (refl, refl, refl)

  -- A scroll that a handler takes, and one that it does not
  abbrev Taken : Handler → Pointer R S × Bool → Type 0
  Taken h r = (r.1 ≡ true → Framed (mark h r.0)) × (r.1 ≡ false → Framed r.0)

  handler_axis-Taken :
      (h : Handler) (p : Pointer R S) (scroll : Scroll)
      → Framed p
      → Taken h (handler_axis env h p scroll)
  unfolding handler_axis client_handle_axis
  handler_axis-Taken client_handler p scroll f =
      let scroll' = record scroll { source = frame_source p.client_axis_source scroll.source } in
      let p' : Pointer R S = record p {
        client_axis_source = kept_source p.client_axis_source scroll.source;
        sent = send_each (send_axis env scroll') p.focus.active p.sent;
      } in
      if_ind (Taken client_handler) (is_empty p.focus.active)
        (λ _. (λ _. mark-Framed client_handler p f, λ _. f))
        λ _. (λ _. mark_client-Framed p' f.client_listed, λ h. ground (arith, h))
  handler_axis-Taken observer_handler p scroll f = (λ _. mark-Framed observer_handler p f, λ _. f)
  handler_axis-Taken (other_handler n) p scroll f =
      option_ind (Taken (other_handler n)) (env.other n).axis
        (λ _. (λ _. mark-Framed (other_handler n) p f, λ _. f))
        λ g _.
          let p' : Pointer R S = record p { rest = (g p.rest scroll).0 } in
          let f' = Same-Framed p p' (refl, refl, refl) f in
          (λ _. mark-Framed (other_handler n) p' f', λ _. f')

  offer_motion-Framed :
      (ls : List Link) (p : Pointer R S) → Framed p → Framed (offer_motion env ls p)
  unfolding offer_motion
  offer_motion-Framed [] p f = f
  offer_motion-Framed (l ∷ ls) p f =
      let r = handler_motion env l.handler p in
      let f' = Same-Framed p r.0 (handler_motion-Same l.handler p) f in
      if_ind Framed r.1 (λ _. mark-Framed l.handler r.0 f') λ _. offer_motion-Framed ls r.0 f'

  pub offer_axis-Framed :
      (ls : List Link) (p : Pointer R S) (scroll : Scroll)
      → Framed p
      → Framed (offer_axis env ls p scroll)
  unfolding offer_axis
  offer_axis-Framed [] p scroll f = f
  offer_axis-Framed (l ∷ ls) p scroll f =
      let r = handler_axis env l.handler p scroll in
      let (taken, passed) = handler_axis-Taken l.handler p scroll f in
      if_ind Framed r.1 taken λ e. offer_axis-Framed ls r.0 scroll (passed e)

  offer_button-Framed :
      (ls : List Link) (p : Pointer R S) (value serial : ℕ)
      → Framed p
      → Framed (offer_button env ls p value serial).0
  unfolding offer_button
  offer_button-Framed [] p value serial f = f
  offer_button-Framed (l ∷ ls) p value serial f =
      let r = handler_button env l.handler p value serial true in
      let f' = Same-Framed p r.0 (handler_button-Same l.handler p value serial true) f in
      if_ind (λ (o : Pointer R S × Option Handler). Framed o.0) r.1
        (λ _. mark-Framed l.handler r.0 f') λ _. offer_button-Framed ls r.0 value serial f'

  release_to-Framed :
      (ho : Option Handler) (p : Pointer R S) (value serial : ℕ)
      → Framed p
      → Framed (release_to env ho p value serial)
  unfolding release_to
  release_to-Framed none p value serial f = f
  release_to-Framed (some h) p value serial f =
      let p' = (handler_button env h p value serial false).0 in
      mark-Framed h p' (Same-Framed p p' (handler_button-Same h p value serial false) f)

  pub button-Framed :
      (p : Pointer R S) (value : ℕ) (pressed : Bool)
      → Framed p
      → Framed (pointer_handle_button env p value pressed)
  unfolding pointer_handle_button press_button release_button
  button-Framed p value pressed f =
      let serial = suc p.last_serial % 4294967296 in
      let p' : Pointer R S = record p { last_serial = serial } in
      let f' : Framed p' = record {
        client_listed = f.client_listed;
        source_waits = f.source_waits;
      } in
      if_ind Framed pressed
        (λ _.
          if_ind Framed (not env.button_allocated) (λ _. f')
            λ _.
              let o = offer_button-Framed p'.handlers p' value serial f' in
              record { client_listed = o.client_listed; source_waits = o.source_waits })
        λ _.
          option_ind Framed (find_button value p'.buttons) (λ _. f')
            λ b _.
              let o = release_to-Framed b.handler p' b.value serial f' in
              record { client_listed = o.client_listed; source_waits = o.source_waits }

  recover_in-Same : (p : Pointer R S) (bs : List Box) → Same p (recover_in env.fixed p bs)
  recover_in-Same p [] = (refl, refl, refl)
  recover_in-Same p (b ∷ bs) = (refl, refl, refl)

  clip-Same : (p : Pointer R S) (x y : ℤ) → Same p (clip_position env p x y)
  unfolding clip_position recover_position
  clip-Same p x y =
      let f = env.fixed in
      option_ind (Same p) (env.regions.contains_point p.region (f.to_int x) (f.to_int y))
        (λ _.
          option_ind (Same p) (env.regions.contains_point p.region (f.to_int p.x) (f.to_int p.y))
            (λ _. recover_in-Same p (env.regions.rectangles p.region)) λ _ _. (refl, refl, refl))
        λ _ _. (refl, refl, refl)

  pub motion-Framed :
      (p : Pointer R S) (x y : ℤ) → Framed p → Framed (pointer_handle_absolute_motion env p x y)
  unfolding pointer_handle_absolute_motion
  motion-Framed p x y f =
      let p' = clip_position env p x y in
      let o = offer_motion-Framed p'.handlers p' (Same-Framed p p' (clip-Same p x y) f) in
      record { client_listed = o.client_listed; source_waits = o.source_waits }
