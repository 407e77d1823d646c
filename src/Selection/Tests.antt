-- ===== src/Selection/Tests.antt =====
-- A clipboard of two sources and a clipboard manager, and the theorems at it.
use neoswc.Prelude.{ℕ, ◌≡◌, refl, Bool, true, false, Option, none, some, [], ◌∷◌}
use neoswc.Selection.{Source, World, source_wl_data, source_data_control, set_source, source_of}
use neoswc.Selection.{selection_sent}
use neoswc.Selection.Devices.{same, data_device_set_selection, step, source_destroyed}
use neoswc.Selection.Live.{Inv}
use neoswc.Selection.Kept.{step-Inv}
use neoswc.Selection.Told.{all_told, objects, data_device_set_selection-told}

abbrev always : ℕ → Bool
always _ = true

-- 1 is a source of a window, 2 one of data-control.
abbrev sources : ℕ → Option Source
sources =
    set_source
      (set_source (λ _. none) 1
        (some (record {
          kind = source_wl_data;
          mime_types = 70 ∷ 71 ∷ [];
          used = false;
          offers = 101 ∷ 100 ∷ [];
        })))
      2
      (some
        (record { kind = source_data_control; mime_types = 72 ∷ []; used = false; offers = [] }))

abbrev clipboard : World
clipboard = record {
  sources = sources;
  offers = record { object = 101; source = some 1 } ∷ record { object = 100; source = some 1 } ∷ [];
  selection = some 1;
  focused = some 20;
  control_devices = record { object = 30; offer = some 101 } ∷ [];
  next = 102;
  sent = selection_sent 30 (some 101) ∷ [];
}

clipboard-Inv : Inv clipboard
clipboard-Inv = (refl, refl)

step-Inv_example : Inv (step always clipboard (source_destroyed 1))
step-Inv_example = step-Inv always clipboard (source_destroyed 1) refl clipboard-Inv

data_device_set_selection-told_example :
    let w' = data_device_set_selection always clipboard (some 2) in
    (same (some 2) w'.selection ≡ true)
    × (all_told w' (objects clipboard.control_devices) ≡ true)
    × (objects w'.control_devices ≡ objects clipboard.control_devices)
    × (data_device_set_selection always w' (some 2) ≡ w')
unfolding source_of
data_device_set_selection-told_example =
    data_device_set_selection-told always clipboard (some 2) (λ _. refl) clipboard-Inv refl refl
      refl
