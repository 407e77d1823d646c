-- ===== src/Pointer/Buttons.antt =====
-- libswc/pointer.c: proofs about a button that is pressed and released.
use neoswc.Prelude.{
  if◌then◌else◌, ℕ, suc, ◌%◌, ◌≡◌, refl, ap, ◌∙◌, true, false, not, Option, none, some, List, [],
  ◌∷◌, ◌++◌, arith, if_ind,
}
use neoswc.Pointer.{Handler, Link, Button, Surroundings, Pointer}
use neoswc.Pointer.Handlers.{handler_button}
use neoswc.Pointer.Events.{
  mark, find_button, remove_button, offer_button, release_to, release_button, press_button,
  pointer_handle_button,
}
use neoswc.Pointer.Framed.{handler_button-Same}

find_button-append :
    (v : ℕ) (bs : List Button) (b : Button)
    → find_button v bs ≡ none
    → b.value ≡ v
    → find_button v (bs ++ (b ∷ [])) ≡ some b
unfolding find_button
find_button-append v [] b e h = ground (arith, h)
find_button-append v (b' ∷ bs) b e h = ground (arith, find_button-append v bs b, e, h)

remove_button-append :
    (v : ℕ) (bs : List Button) (b : Button)
    → find_button v bs ≡ none
    → b.value ≡ v
    → remove_button v (bs ++ (b ∷ [])) ≡ bs
unfolding find_button remove_button
remove_button-append v [] b e h = ground (arith, h)
remove_button-append v (b' ∷ bs) b e h = ground (arith, remove_button-append v bs b, e, h)

module _ {R : Type 0} {S : Type 0} (env : Surroundings R S) where
  offer_button-buttons :
      (ls : List Link) (p : Pointer R S) (value serial : ℕ)
      → (offer_button env ls p value serial).0.buttons ≡ p.buttons
  unfolding offer_button
  offer_button-buttons [] p value serial = refl
  offer_button-buttons (l ∷ ls) p value serial =
      let r = handler_button env l.handler p value serial true in
      let same = (handler_button-Same env l.handler p value serial true).2 in
      if_ind (λ (o : Pointer R S × Option Handler). o.0.buttons ≡ p.buttons) r.1 (λ _. same)
        λ _. offer_button-buttons ls r.0 value serial ∙ same

  release_to-buttons :
      (ho : Option Handler) (p : Pointer R S) (value serial : ℕ)
      → (release_to env ho p value serial).buttons ≡ p.buttons
  unfolding release_to
  release_to-buttons none p value serial = refl
  release_to-buttons (some h) p value serial = (handler_button-Same env h p value serial false).2

  press_button-buttons :
      (p : Pointer R S) (value serial : ℕ)
      → env.button_allocated ≡ true
      → let taker = (offer_button env p.handlers p value serial).1 in
        (press_button env p value serial).buttons
        ≡ p.buttons ++ (record { value = value; serial = serial; handler = taker } ∷ [])
  unfolding press_button
  press_button-buttons p value serial allocated =
      let kept = offer_button-buttons p.handlers p value serial in
      let b : Button = record {
        value = value;
        serial = serial;
        handler = (offer_button env p.handlers p value serial).1;
      } in
      if_ind (λ (q : Pointer R S). q.buttons ≡ p.buttons ++ (b ∷ [])) (not env.button_allocated)
        (λ h. ground (arith, h, allocated)) λ _. ap (λ bs. bs ++ (b ∷ [])) kept

  release_button-found :
      (p : Pointer R S) (value serial : ℕ) (b : Button)
      → find_button value p.buttons ≡ some b
      → let told = release_to env b.handler p b.value serial in
        release_button env p value serial
        ≡ record told { buttons = remove_button value told.buttons }
  unfolding release_button
  release_button-found p value serial b found = ground (arith, found)

  release_button-last :
      (p : Pointer R S) (value serial : ℕ) (old : List Button) (b : Button)
      → p.buttons ≡ old ++ (b ∷ [])
      → find_button value old ≡ none
      → b.value ≡ value
      → let told = release_to env b.handler p b.value serial in
        release_button env p value serial ≡ record told { buttons = old }
  release_button-last p value serial old b e new h =
      let told = release_to env b.handler p b.value serial in
      release_button-found p value serial b
        (ap (find_button value) e ∙ find_button-append value old b new h)
      ∙ ap (λ bs. record told { buttons = bs })
          (ap (remove_button value) (release_to-buttons b.handler p b.value serial ∙ e)
            ∙ remove_button-append value old b new h)

  -- Of the handlers that are offered a press one after another, the first that answers that it takes
  -- it; each finds the state as the ones before it left it.
  abbrev pub first_taker : List Link → Pointer R S → ℕ → ℕ → Option Handler
  first_taker [] p value serial = none
  first_taker (l ∷ ls) p value serial =
      let (p', taken) = handler_button env l.handler p value serial true in
      let later = first_taker ls p' value serial in if taken then some l.handler else later

  -- A release that one handler is called with, and its mark for the frame; nobody else is called.
  abbrev pub told_release : Option Handler → Pointer R S → ℕ → ℕ → Pointer R S
  told_release none p value serial = p
  told_release (some h) p value serial = mark h (handler_button env h p value serial false).0

  offer_button-taker :
      (ls : List Link) (p : Pointer R S) (value serial : ℕ)
      → (offer_button env ls p value serial).1 ≡ first_taker ls p value serial
  unfolding offer_button
  offer_button-taker [] p value serial = refl
  offer_button-taker (l ∷ ls) p value serial =
      let r = handler_button env l.handler p value serial true in
      ground (arith, offer_button-taker ls r.0 value serial)

  release_to-told :
      (ho : Option Handler) (p : Pointer R S) (value serial : ℕ)
      → release_to env ho p value serial ≡ told_release ho p value serial
  unfolding release_to
  release_to-told none p value serial = refl
  release_to-told (some h) p value serial = refl

  -- A button that was not held is pressed and released. Whatever the handlers answer, the release
  -- calls the button handler of the first of them, in the order of the list, that answered to the press
  -- that it takes it, with the serial of the release, and marks it for the frame; it calls no other
  -- handler, and none if nobody took the press. The buttons that were held are held again, in their
  -- order. Memory for the button was to be had.
  pub pointer_handle_button-paired :
      (p : Pointer R S) (value : ℕ)
      → env.button_allocated ≡ true
      → find_button value p.buttons ≡ none
      → let serial = suc p.last_serial % 4294967296 in
        let taker = first_taker p.handlers (record p { last_serial = serial }) value serial in
        let held = pointer_handle_button env p value true in
        let serial' = suc held.last_serial % 4294967296 in
        let told = told_release taker (record held { last_serial = serial' }) value serial' in
        let after = pointer_handle_button env held value false in
        (after ≡ record told { buttons = p.buttons })
  unfolding pointer_handle_button
  pointer_handle_button-paired p value allocated new =
      let serial = suc p.last_serial % 4294967296 in
      let p' : Pointer R S = record p { last_serial = serial } in
      let held = press_button env p' value serial in
      let serial' = suc held.last_serial % 4294967296 in
      release_button-last (record held { last_serial = serial' }) value serial' p.buttons
        (record {
          value = value;
          serial = serial;
          handler = (offer_button env p.handlers p' value serial).1;
        })
        (press_button-buttons p' value serial allocated) new refl
      ∙ ap (λ (q : Pointer R S). record q { buttons = p.buttons })
          (ap (λ t. release_to env t (record held { last_serial = serial' }) value serial')
              (offer_button-taker p.handlers p' value serial)
            ∙ release_to-told (first_taker p.handlers p' value serial)
                (record held { last_serial = serial' }) value serial')
