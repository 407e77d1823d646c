-- ===== src/Focus/Tests.antt =====
-- Two clients' keyboards, and the theorems at them.
use neoswc.Prelude.{◌≡◌, refl, false, some, [], ◌∷◌, arith}
use neoswc.Focus.{
  Resource, View, InputFocus, enter, leave, input_focus_initialize, step, add_op, set_op, send_each,
  activate, focus, unfocus, input_focus_add_resource, input_focus_set,
}
use neoswc.Focus.Invariant.{Inv, entered, step_focus-Inv}

abbrev terminal : View
terminal = record { id = 1; client = 7 }

abbrev browser : View
browser = record { id = 2; client = 8 }

abbrev of_terminal : Resource
of_terminal = record { id = 70; client = 7 }

abbrev of_browser : Resource
of_browser = record { id = 80; client = 8 }

start-Inv : Inv input_focus_initialize
unfolding input_focus_initialize
start-Inv = ground arith

abbrev focused : InputFocus
focused = step (step input_focus_initialize (add_op of_terminal)) (set_op (some terminal))

known : entered 70 input_focus_initialize.sent ≡ false
unfolding entered input_focus_initialize
known = refl

focused-Inv : Inv focused
focused-Inv =
    step_focus-Inv _ (set_op (some terminal)) tt
      (step_focus-Inv input_focus_initialize (add_op of_terminal) known start-Inv)

-- The terminal is left before the browser is entered.
changes_hands :
    (step (step focused (add_op of_browser)) (set_op (some browser))).sent
    ≡ enter 80 (some browser) ∷ leave 70 (some terminal) ∷ enter 70 (some terminal) ∷ []
unfolding step input_focus_initialize input_focus_add_resource input_focus_set focus unfocus
    activate send_each
changes_hands = refl

step_focus-Inv_example : Inv (step focused (set_op (some browser)))
step_focus-Inv_example = step_focus-Inv focused (set_op (some browser)) tt focused-Inv
