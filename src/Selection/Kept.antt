-- ===== src/Selection/Kept.antt =====
-- libswc/data_device.c and libswc/data_control.c: proofs about offers and the selection, event by event.
use neoswc.Prelude.{
  ℕ, ◌≡◌, refl, sym, subst, ◌∙◌, Bool, true, false, not, Option, none, some, List, [], ◌∷◌, arith,
  option_ind, if_ind,
}
use neoswc.Selection.{
  ControlDevice, World, data_source_mark_used, offer_receive, offer_accept, data_destroy, source_of,
  is_wl_data, kind_of, offer_new,
}
use neoswc.Selection.Devices.{
  same, cancel_selection, new_offer, data_device_offer_selection, device_send_selection, send_all,
  selection_changed, data_device_set_selection, device_set_selection, source_destroy,
  manager_get_data_device, device_resource_destroy, handle_focus, Event, step, source_made,
  type_offered, mime_accepted, received, selection_set, control_selection_set, source_destroyed,
  offer_destroyed, device_made, device_destroyed, focus_moved,
}
use neoswc.Selection.Live.{
  there, selected, Inv, source_new-Inv, source_offer-Inv, data_source_mark_used-Inv, offer_new-Inv,
  data_destroy-Inv, offer_destroy-Inv,
}

-- The invariant, with the selection that there is
abbrev pub Kept : Option ℕ → World → Type 0
Kept sel w = Inv w × (w.selection ≡ sel)

offer_new-Kept : (sel : Option ℕ) (w : World) (i o : ℕ) → Kept sel w → Kept sel (offer_new w i o)
unfolding offer_new
offer_new-Kept sel w i o v = (
  offer_new-Inv w i o v.0,
  option_ind (λ (r : World). r.selection ≡ sel) (w.sources i) (λ _. v.1) (λ _ _. v.1),
)

module _ (can_make : ℕ → Bool) (sel : Option ℕ) where
  pub data_device_offer_selection-Kept :
      (w : World) (d : ℕ) → Kept sel w → Kept sel (data_device_offer_selection can_make w d)
  unfolding data_device_offer_selection new_offer
  data_device_offer_selection-Kept w d v =
      option_ind (Kept sel) w.selection (λ _. v)
        (λ i _. if_ind (Kept sel) (can_make w.next) (λ _. offer_new-Kept sel w i w.next v) (λ _. v))

  pub device_send_selection-Kept :
      (w : World) (d : ControlDevice) → Kept sel w → Kept sel (device_send_selection can_make w d).0
  unfolding device_send_selection new_offer
  device_send_selection-Kept w d v =
      option_ind (λ (r : World × ControlDevice). Kept sel r.0) w.selection (λ _. v)
        (λ i _.
          if_ind (λ (r : World × ControlDevice). Kept sel r.0) (can_make w.next)
            (λ _. offer_new-Kept sel w i w.next v) (λ _. v))

  pub send_all-Kept :
      (ds : List ControlDevice) (w : World) → Kept sel w → Kept sel (send_all can_make ds w).0
  unfolding send_all
  send_all-Kept [] w v = v
  send_all-Kept (d ∷ ds) w v =
      send_all-Kept ds (device_send_selection can_make w d).0 (device_send_selection-Kept w d v)

  pub selection_changed-Kept : (w : World) → Kept sel w → Kept sel (selection_changed can_make w)
  unfolding selection_changed
  selection_changed-Kept w v =
      let w1 : World = elim w.focused [
        | none ↦ w
        | some d ↦ data_device_offer_selection can_make w d
      ] in
      let v1 : Kept sel w1 =
        option_ind (Kept sel) w.focused (λ _. v) (λ d _. data_device_offer_selection-Kept w d v) in
      send_all-Kept w1.control_devices w1 v1

-- A source that could be marked is there.
marked-there :
    (w : World) (i : ℕ)
    → (data_source_mark_used w i).1 ≡ true
    → there ((data_source_mark_used w i).0.sources i) ≡ true
unfolding data_source_mark_used
marked-there w i m = grind (arith, m)

module _ (can_make : ℕ → Bool) where
  data_device_set_selection-Inv :
      (w : World) (source : Option ℕ)
      → selected w.sources source ≡ true
      → Inv w
      → Inv (data_device_set_selection can_make w source)
  unfolding data_device_set_selection
  data_device_set_selection-Inv w source h v =
      let w' : World = record w { sent = cancel_selection can_make w; selection = source } in
      if_ind Inv (same source w.selection) (λ _. v)
        (λ _. (selection_changed-Kept can_make source w' ((v.0, h), refl)).0)

  device_set_selection-Inv :
      (w : World) (d : ℕ) (source : Option ℕ)
      → Inv w
      → Inv (device_set_selection can_make w d source)
  unfolding device_set_selection
  device_set_selection-Inv w d none v = data_device_set_selection-Inv w none refl v
  device_set_selection-Inv w d (some i) v =
      let w1 = (data_source_mark_used w i).0 in
      let v1 = data_source_mark_used-Inv w i v in
      if_ind Inv (data_source_mark_used w i).1
        (λ m. data_device_set_selection-Inv w1 (some i) (marked-there w i m) v1) (λ _. v1)

  source_destroy-Inv : (w : World) (i : ℕ) → Inv w → Inv (source_destroy can_make w i)
  unfolding source_destroy
  source_destroy-Inv w i v =
      if_ind (λ (r : World). Inv (data_destroy r i)) (same (some i) w.selection)
        (λ _.
          let (v', e) =
            selection_changed-Kept can_make none (record w { selection = none })
              ((v.0, refl), refl) in
          data_destroy-Inv (selection_changed can_make (record w { selection = none })) i
            (λ e'. ground (arith, sym e ∙ e')) v')
        (λ h.
          data_destroy-Inv w i
            (λ e. ground (arith, subst (λ (s : Option ℕ). same (some i) s ≡ false) e h)) v)

  manager_get_data_device-Inv :
      (w : World) (i : ℕ) → Inv w → Inv (manager_get_data_device can_make w i)
  unfolding manager_get_data_device
  manager_get_data_device-Inv w i v =
      (device_send_selection-Kept can_make w.selection w (record { object = i; offer = none })
        (v, refl)).0

  handle_focus-Inv : (w : World) (d : Option ℕ) → Inv w → Inv (handle_focus can_make w d)
  unfolding handle_focus
  handle_focus-Inv w none v = v
  handle_focus-Inv w (some d) v =
      (data_device_offer_selection-Kept can_make w.selection (record w { focused = some d }) d
        (v, refl)).0

  accept-Inv : (w : World) (o mime : ℕ) → Inv w → Inv (offer_accept w o mime)
  unfolding offer_accept
  accept-Inv w o mime v =
      option_ind Inv (source_of o w.offers) (λ _. v)
        (λ i _. if_ind Inv (is_wl_data (kind_of (w.sources i))) (λ _. v) (λ _. v))

  receive-Inv : (w : World) (o mime fd : ℕ) → Inv w → Inv (offer_receive w o mime fd)
  unfolding offer_receive
  receive-Inv w o mime fd v = option_ind Inv (source_of o w.offers) (λ _. v) (λ _ _. v)

  -- What libwayland sees to: a new source has a number of its own, and one that is set as the
  -- selection is there.
  abbrev pub allowed : World → Event → Bool
  allowed w (source_made kind i) = not (there (w.sources i))
  allowed w (selection_set source) = selected w.sources source
  allowed w e = true

  -- Whatever happens next, to sources, offers, devices or the keyboard's focus, and whichever offers
  -- can be made: each offer that still points at a source points at one that is there and that will
  -- clear it when it goes, and the selection is a source that is there.
  pub step-Inv : (w : World) (e : Event) → allowed w e ≡ true → Inv w → Inv (step can_make w e)
  unfolding step device_resource_destroy
  step-Inv w (source_made kind i) a v = source_new-Inv w kind i (ground (arith, a)) v
  step-Inv w (type_offered i mime) a v = source_offer-Inv w i mime v
  step-Inv w (mime_accepted o mime) a v = accept-Inv w o mime v
  step-Inv w (received o mime fd) a v = receive-Inv w o mime fd v
  step-Inv w (selection_set source) a v = data_device_set_selection-Inv w source a v
  step-Inv w (control_selection_set d source) a v = device_set_selection-Inv w d source v
  step-Inv w (source_destroyed i) a v = source_destroy-Inv w i v
  step-Inv w (offer_destroyed o) a v = offer_destroy-Inv w o v
  step-Inv w (device_made i) a v = manager_get_data_device-Inv w i v
  step-Inv w (device_destroyed i) a v = v
  step-Inv w (focus_moved d) a v = handle_focus-Inv w d v
