-- ===== src/Selection/Told.antt =====
-- libswc/data_control.c: proofs about what the devices of data-control are told.
use neoswc.Prelude.{
  ℕ, ◌≡◌, refl, ap, ◌∙◌, sym, Bool, true, false, not, ◌||◌, ◌==◌, ◌&&◌, Option, none, some, List,
  [], ◌∷◌, ltb, arith, if◌then◌else◌, option_ind, if_ind, Option-cases, inl, inr,
}
use neoswc.Selection.{
  ControlDevice, World, source_of, offer_new, Message, selection_sent, cancelled_sent, send_sent,
  target_sent, closed, data_offer_sent, mime_sent, no_memory, used_source,
}
use neoswc.Selection.Devices.{
  same, cancel_selection, new_offer, data_device_offer_selection, device_send_selection, send_all,
  send_mime_types, mimes_of, selection_changed, data_device_set_selection,
}
use neoswc.Selection.Live.{selected, Inv}
use neoswc.Selection.Kept.{
  Kept, device_send_selection-Kept, data_device_offer_selection-Kept, selection_changed-Kept,
}

-- What a device was told last of the selection: an offer or nothing, if it was told at all
abbrev pub last_selection : ℕ → List Message → Option (Option ℕ)
last_selection d [] = none
last_selection d (m ∷ ms) =
    let before = last_selection d ms in
    elim m [
      | selection_sent e offer ↦ if e == d then some offer else before
      | cancelled_sent _ _ ↦ before
      | send_sent _ _ _ _ ↦ before
      | target_sent _ _ ↦ before
      | closed _ ↦ before
      | data_offer_sent _ _ ↦ before
      | mime_sent _ _ ↦ before
      | no_memory _ ↦ before
      | used_source _ ↦ before
    ]

-- Its last message named an offer of the selection, or that there is none.
abbrev pub told : World → ℕ → Bool
told w d = elim (last_selection d w.sent) [
  | none ↦ false
  | some offer ↦ elim offer [
    | none ↦ same none w.selection
    | some o ↦ ltb o w.next && same (source_of o w.offers) w.selection
  ]
]

abbrev pub all_told : World → List ℕ → Bool
all_told w [] = true
all_told w (d ∷ ds) = told w d && all_told w ds

abbrev pub objects : List ControlDevice → List ℕ
objects [] = []
objects (d ∷ ds) = d.object ∷ objects ds

abbrev listed : ℕ → List ℕ → Bool
listed d [] = false
listed d (e ∷ es) = (e == d) || listed d es

-- No two of the objects are the same.
abbrev pub distinct : List ℕ → Bool
distinct [] = true
distinct (d ∷ ds) = not (listed d ds) && distinct ds

all_told-devices :
    (w : World) (es : List ControlDevice) (ds : List ℕ)
    → all_told (record w { control_devices = es }) ds ≡ all_told w ds
all_told-devices w es [] = refl
all_told-devices w es (d ∷ ds) = ap (λ b. told w d && b) (all_told-devices w es ds)

-- Types are no selections.
last_selection-send_mime_types :
    (d o : ℕ) (ms : List ℕ) (sent : List Message)
    → last_selection d (send_mime_types o ms sent) ≡ last_selection d sent
unfolding send_mime_types
last_selection-send_mime_types d o [] sent = refl
last_selection-send_mime_types d o (m ∷ ms) sent =
    last_selection-send_mime_types d o ms (mime_sent o m ∷ sent)

same_refl : (s : Option ℕ) → same s s ≡ true
same_refl none = refl
same_refl (some i) = ground arith

module _ (can_make : ℕ → Bool) where
  -- What another device is told changes nothing about what a device was told.
  told-sent :
      (w : World) (d : ℕ) (e : ControlDevice)
      → (e.object == d) ≡ false
      → told w d ≡ true
      → told (device_send_selection can_make w e).0 d ≡ true
  unfolding device_send_selection new_offer offer_new source_of
  told-sent w d e ne h = elim (Option-cases w.selection) [
    | inl n ↦ grind (arith, h, ne, n)
    | inr (i, n) ↦ grind (
      arith,
      h,
      ne,
      n,
      last_selection-send_mime_types d w.next (mimes_of (w.sources i))
          (data_offer_sent e.object w.next ∷ w.sent),
    )
  ]

  told-own :
      (w : World) (d : ControlDevice)
      → ((n : ℕ) → can_make n ≡ true)
      → selected w.sources w.selection ≡ true
      → (told (device_send_selection can_make w d).0 d.object ≡ true)
        × ((device_send_selection can_make w d).1.object ≡ d.object)
  unfolding device_send_selection new_offer offer_new source_of
  told-own w d m v = grind (arith, v, m w.next)

  told-sent_all :
      (ds : List ControlDevice) (w : World) (d : ℕ)
      → listed d (objects ds) ≡ false
      → told w d ≡ true
      → told (send_all can_make ds w).0 d ≡ true
  unfolding send_all
  told-sent_all [] w d ne h = h
  told-sent_all (e ∷ ds) w d ne h =
      told-sent_all ds (device_send_selection can_make w e).0 d (ground (arith, ne))
        (told-sent w d e (ground (arith, ne)) h)

  send_all-told :
      (ds : List ControlDevice) (w : World)
      → ((n : ℕ) → can_make n ≡ true)
      → distinct (objects ds) ≡ true
      → Inv w
      → (all_told (send_all can_make ds w).0 (objects ds) ≡ true)
        × (objects (send_all can_make ds w).1 ≡ objects ds)
  unfolding send_all
  send_all-told [] w m u v = (refl, refl)
  send_all-told (d ∷ ds) w m u v =
      let w1 = (device_send_selection can_make w d).0 in
      let v1 = (device_send_selection-Kept can_make w.selection w d (v, refl)).0 in
      let (own, same_object) = told-own w d m v.1 in
      let later = told-sent_all ds w1 d.object (ground (arith, u)) own in
      let (rest, same_objects) = send_all-told ds w1 m (ground (arith, u)) v1 in
      (ground (arith, later, rest), ground (arith, same_object, same_objects))

  devices-offered :
      (w : World) (object : ℕ)
      → (data_device_offer_selection can_make w object).control_devices ≡ w.control_devices
  unfolding data_device_offer_selection new_offer offer_new
  devices-offered w object = grind arith

  selection_changed-told :
      (w : World)
      → ((n : ℕ) → can_make n ≡ true)
      → distinct (objects w.control_devices) ≡ true
      → Inv w
      → let w' = selection_changed can_make w in
        (all_told w' (objects w.control_devices) ≡ true)
        × (objects w'.control_devices ≡ objects w.control_devices)
  unfolding selection_changed
  selection_changed-told w m u v =
      let w1 : World = elim w.focused [
        | none ↦ w
        | some d ↦ data_device_offer_selection can_make w d
      ] in
      let v1 : Kept w.selection w1 =
        option_ind (Kept w.selection) w.focused (λ _. (v, refl))
          (λ d _. data_device_offer_selection-Kept can_make w.selection w d (v, refl)) in
      let ds : w1.control_devices ≡ w.control_devices =
        option_ind (λ (r : World). r.control_devices ≡ w.control_devices) w.focused (λ _. refl)
          (λ d _. devices-offered w d) in
      let (a, b) =
        send_all-told w1.control_devices w1 m (ap (λ es. distinct (objects es)) ds ∙ u) v1.0 in
      let w2 = (send_all can_make w1.control_devices w1).0 in
      (
        all_told-devices w2 (send_all can_make w1.control_devices w1).1 (objects w.control_devices)
            ∙ ap (λ es. all_told w2 (objects es)) (sym ds)
            ∙ a,
        b ∙ ap objects ds,
      )

  -- The invariant of the clipboard holds, the devices of data-control are distinct objects, each of
  -- them was told of the selection last, and the offers can be made. When another source becomes the
  -- selection, or none does, then the last selection event that was sent to each device, the same
  -- devices as before, names an offer of that source, or says that there is none; and whoever asks for
  -- what is the selection already changes nothing.
  pub data_device_set_selection-told :
      (w : World) (source : Option ℕ)
      → ((n : ℕ) → can_make n ≡ true)
      → Inv w
      → selected w.sources source ≡ true
      → distinct (objects w.control_devices) ≡ true
      → all_told w (objects w.control_devices) ≡ true
      → let w' = data_device_set_selection can_make w source in
        (same source w'.selection ≡ true)
        × (all_told w' (objects w.control_devices) ≡ true)
        × (objects w'.control_devices ≡ objects w.control_devices)
        × (data_device_set_selection can_make w' source ≡ w')
  unfolding data_device_set_selection
  data_device_set_selection-told w source m v h u t =
      let w' = data_device_set_selection can_make w source in
      let w1 : World = record w { sent = cancel_selection can_make w; selection = source } in
      let v1 : Inv w1 = (v.0, h) in
      let (is, all, objs) =
        if_ind
          (λ (r : World).
            (same source r.selection ≡ true)
            × (all_told r (objects w.control_devices) ≡ true)
            × (objects r.control_devices ≡ objects w.control_devices))
          (same source w.selection) (λ e. (e, t, refl))
          (λ _.
            let (a, b) = selection_changed-told w1 m u v1 in
            (
              ap (same source) (selection_changed-Kept can_make source w1 (v1, refl)).1
                  ∙ same_refl source,
              a,
              b,
            )) in
      (
        is,
        all,
        objs,
        ap
            (λ b.
              if b
              then w'
              else selection_changed can_make
                  (record w' { sent = cancel_selection can_make w'; selection = source }))
            is,
      )
