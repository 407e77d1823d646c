-- ===== src/Bindings/Tests.antt =====
-- Bindings of a small compositor, and the theorems at them.
use neoswc.Prelude.{
  ◌+◌, ◌≡◌, refl, ◌⊎◌, true, false, Bool, some, List, [], ◌∷◌, ◌==◌, get_elem?, if◌then◌else◌,
}
use neoswc.Prelude.Int.{ℤ, pos}
use neoswc.Bindings.{
  Binding, Bindings, Keymap, mod_any, matches, find_binding, find_key_binding, handle_binding,
  handle_key, remove_from, remove_slot,
}
use neoswc.Bindings.Routes.{None, KeyFirst, handle_key-release}
use neoswc.Bindings.Removal.{count, remove_from-count}

abbrev quit : Binding
quit = record { value = 113; modifiers = 4; handler = 1 }

abbrev menu : Binding
menu = record { value = 109; modifiers = mod_any; handler = 2 }

abbrev close : Binding
close = record { value = 99; modifiers = 4; handler = 3 }

abbrev all : List Binding
all = quit ∷ menu ∷ close ∷ []

abbrev bindings : Bindings
bindings = record { key_bindings = all; button_bindings = []; axis_bindings = [] }

abbrev us : Keymap
us = record { one_sym = λ k. k + 97; level_0 = λ k. some (k + 97) }

-- The last binding takes the place of the one that goes.
removal_swaps : remove_from all 4 113 ≡ close ∷ menu ∷ []
unfolding remove_from remove_slot find_binding
removal_swaps = refl

menu_taken : (handle_key us bindings 9 12 0 true).2 ≡ true
unfolding handle_binding find_key_binding find_binding
menu_taken = refl

handle_key-release_example :
    let pressed = handle_key us bindings 9 12 0 true in
    KeyFirst us all 9 12 pressed.0
    × (e : Binding) × (get_elem? all pressed.0 ≡ some e)
    × (pressed.1 ≡ some (record { called = e.handler; with_value = e.value; state = true }))
    × ((handle_key us bindings 0 12 pressed.0 false).1
        ≡ some (record { called = e.handler; with_value = e.value; state = false }))
handle_key-release_example = handle_key-release us bindings 9 0 12 0 menu_taken

abbrev of_logo : Binding → Bool
of_logo b = b.modifiers == 4

remove_from-count_example :
    (None all 4 113 × (remove_from all 4 113 ≡ all))
    ⊎ ((b : Binding) × (matches 4 113 b ≡ true)
        × (count of_logo (remove_from all 4 113) + (if of_logo b then 1 else 0)
            ≡ count of_logo all))
remove_from-count_example = remove_from-count of_logo all 4 113

abbrev no_motion : ℤ → ℤ
no_motion z = pos 0
