-- ===== src/Selection/Devices.antt =====
-- libswc/data_device.c and libswc/data_control.c: who is told of the selection, and who may set it.
use neoswc.Prelude.{
  ℕ, ◌+◌, Bool, true, false, Option, none, some, List, [], ◌∷◌, ◌++◌, ◌==◌, if◌then◌else◌,
}
use neoswc.Selection.{
  Kind, Source, Message, ControlDevice, World, cancelled_sent, data_offer_sent, mime_sent,
  selection_sent, no_memory, used_source, source_new, source_offer, data_source_mark_used,
  offer_receive, offer_accept, data_destroy, offer_destroy, offer_new,
}

-- `data_send_mime_types` and `data_control_send_mime_types`
unfoldable pub send_mime_types : ℕ → List ℕ → List Message → List Message
send_mime_types o [] sent = sent
send_mime_types o (m ∷ ms) sent = send_mime_types o ms (mime_sent o m ∷ sent)

abbrev pub mimes_of : Option Source → List ℕ
mimes_of none = []
mimes_of (some s) = s.mime_types

-- An offer of a source to a device, with its types: `new_offer`, and the same part of
-- `device_send_selection`
unfoldable pub new_offer : World → ℕ → ℕ → World
new_offer w device i =
    let o = w.next in
    let w' = offer_new w i o in
    record w' {
      next = o + 1;
      sent = send_mime_types o (mimes_of (w.sources i)) (data_offer_sent device o ∷ w.sent);
    }

-- The source is the selection.
abbrev pub same : Option ℕ → Option ℕ → Bool
same none none = true
same none (some j) = false
same (some i) none = false
same (some i) (some j) = i == j

module _ (can_make : ℕ → Bool) where
  -- `data_device_offer_selection` to a client with a device
  unfoldable pub data_device_offer_selection : World → ℕ → World
  data_device_offer_selection w device = elim w.selection [
    | none ↦ record w { sent = selection_sent device none ∷ w.sent }
    | some i ↦
        if can_make w.next
        then (let w' = new_offer w device i in
            record w' { sent = selection_sent device (some w.next) ∷ w'.sent })
        else record w { next = w.next + 1; sent = selection_sent device none ∷ w.sent }
  ]

  -- `device_send_selection`
  unfoldable pub device_send_selection : World → ControlDevice → World × ControlDevice
  device_send_selection w d = elim w.selection [
    | none ↦ (record w { sent = selection_sent d.object none ∷ w.sent }, record d { offer = none })
    | some i ↦
        if can_make w.next
        then (let w' = new_offer w d.object i in
            (
              record w' { sent = selection_sent d.object (some w.next) ∷ w'.sent },
              record d { offer = some w.next },
            ))
        else (record w { next = w.next + 1; sent = no_memory d.object ∷ w.sent }, d)
  ]

  -- `handle_selection_changed` of each device of data-control
  unfoldable pub send_all : List ControlDevice → World → World × List ControlDevice
  send_all [] w = (w, [])
  send_all (d ∷ ds) w =
      let (w1, d') = device_send_selection w d in let (w2, ds') = send_all ds w1 in (w2, d' ∷ ds')

  -- `DATA_DEVICE_EVENT_SELECTION_CHANGED`: `handle_data_device_event` of the seat, then the others
  unfoldable pub selection_changed : World → World
  selection_changed w =
      let w1 : World = elim w.focused [ none ↦ w | some d ↦ data_device_offer_selection w d ] in
      let (w2, ds) = send_all w1.control_devices w1 in record w2 { control_devices = ds }

  abbrev cancel_message : ℕ → Option Source → List Message → List Message
  cancel_message i none sent = sent
  cancel_message i (some s) sent = cancelled_sent s.kind i ∷ sent

  -- `data_source_cancel` of the selection, if there is one
  abbrev pub cancel_selection : World → List Message
  cancel_selection w = elim w.selection [
    | none ↦ w.sent
    | some i ↦ cancel_message i (w.sources i) w.sent
  ]

  -- `data_device_set_selection`
  unfoldable pub data_device_set_selection : World → Option ℕ → World
  data_device_set_selection w source =
      if same source w.selection
      then w
      else selection_changed (record w { sent = cancel_selection w; selection = source })

  -- `device_set_selection`, of data-control
  unfoldable pub device_set_selection : World → ℕ → Option ℕ → World
  device_set_selection w device source = elim source [
    | none ↦ data_device_set_selection w none
    | some i ↦
        let (w', marked) = data_source_mark_used w i in
        if marked
        then data_device_set_selection w' (some i)
        else record w' { sent = used_source device ∷ w'.sent }
  ]

  -- The destruction of a source: `handle_selection_destroy` if it is the selection, then
  -- `data_destroy`
  unfoldable pub source_destroy : World → ℕ → World
  source_destroy w i =
      data_destroy
        (if same (some i) w.selection then selection_changed (record w { selection = none }) else w)
        i

  -- `manager_get_data_device`, of data-control, for an object that could be made
  unfoldable pub manager_get_data_device : World → ℕ → World
  manager_get_data_device w object =
      let (w', d) = device_send_selection w (record { object = object; offer = none }) in
      record w' { control_devices = w'.control_devices ++ (d ∷ []) }

  unfoldable pub drop_device : ℕ → List ControlDevice → List ControlDevice
  drop_device i [] = []
  drop_device i (d ∷ ds) = if d.object == i then ds else d ∷ drop_device i ds

  -- `device_resource_destroy`
  unfoldable pub device_resource_destroy : World → ℕ → World
  device_resource_destroy w i = record w { control_devices = drop_device i w.control_devices }

  -- The keyboard enters a client with this device, or one without.
  unfoldable pub handle_focus : World → Option ℕ → World
  handle_focus w device = elim device [
    | none ↦ record w { focused = none }
    | some d ↦ data_device_offer_selection (record w { focused = some d }) d
  ]

-- What happens to the selection; a new source has a number that no source has.
pub data Event : Type 0 where
  source_made : Kind → ℕ → Event
  type_offered mime_accepted : ℕ → ℕ → Event
  received : ℕ → ℕ → ℕ → Event
  selection_set : Option ℕ → Event
  control_selection_set : ℕ → Option ℕ → Event
  source_destroyed offer_destroyed device_made device_destroyed : ℕ → Event
  focus_moved : Option ℕ → Event

module _ (can_make : ℕ → Bool) where
  unfoldable pub step : World → Event → World
  step w (source_made kind i) = source_new w kind i
  step w (type_offered i mime) = source_offer w i mime
  step w (mime_accepted o mime) = offer_accept w o mime
  step w (received o mime fd) = offer_receive w o mime fd
  step w (selection_set source) = data_device_set_selection can_make w source
  step w (control_selection_set d source) = device_set_selection can_make w d source
  step w (source_destroyed i) = source_destroy can_make w i
  step w (offer_destroyed o) = offer_destroy w o
  step w (device_made i) = manager_get_data_device can_make w i
  step w (device_destroyed i) = device_resource_destroy can_make w i
  step w (focus_moved d) = handle_focus can_make w d
