-- ===== src/Pointer/Tests.antt =====
-- A pointer on one screen, and the theorems at it. A region is a box here.
use neoswc.Prelude.{
  ℕ, suc, ◌+◌, ◌*◌, ◌%◌, ◌≡◌, ◌≢◌, refl, Bool, true, false, none, some, [], ◌∷◌, arith,
  if◌then◌else◌, ◌&&◌,
}
use neoswc.Prelude.Int.{ℤ, pos, negsuc, ltb_ℤ}
use neoswc.Prelude.Machine.{quot}
use neoswc.Focus.{Resource, input_focus_initialize, input_focus_add_resource, input_focus_set}
use neoswc.LayerShell.{Box}
use neoswc.Pointer.{
  Fixed, Regions, OtherHandler, client_handler, other_handler, Scroll, Surroundings, Pointer,
}
use neoswc.Pointer.Position.{clip_position}
use neoswc.Pointer.Events.{pointer_handle_button, pointer_handle_frame, find_button}
use neoswc.Pointer.Inside.{in_box, FixedLaws, RegionLaws, OnScreen, clip_position-OnScreen}
use neoswc.Pointer.Framed.{Framed}
use neoswc.Pointer.Step.{step, scroll, step-Framed}
use neoswc.Pointer.Buttons.{first_taker, told_release, pointer_handle_button-paired}

abbrev from_256 : ℤ → ℤ
from_256 (pos n) = pos (n * 256)
from_256 (negsuc n) = negsuc (n * 256 + 255)

abbrev fixed : Fixed
fixed = record { to_int = λ f. quot f 256; from_int = from_256 }

to_from : (i : ℤ) → quot (from_256 i) 256 ≡ i
unfolding quot
to_from (pos n) = ground arith
to_from (negsuc n) = ground arith

fixed-Laws : FixedLaws fixed
fixed-Laws = record { to_int-from_int = to_from }

abbrev has_points : Box → Bool
has_points b = ltb_ℤ b.x1 b.x2 && ltb_ℤ b.y1 b.y2

abbrev box_regions : Regions Box
box_regions = record {
  contains_point = λ r x y. if in_box r x y then some r else none;
  rectangles = λ r. if has_points r then r ∷ [] else [];
}

inside : (r : Box) (x y : ℤ) → in_box r x y ≡ true → (if in_box r x y then some r else none) ≢ none
inside r x y h e = ground (arith, h, e)

box_regions-Laws : RegionLaws box_regions
box_regions-Laws = record {
  box_found = λ r x y b e. ground (arith, e);
  box_inside = λ r x y b e x' y' h n. ground (arith, e, h, n);
  rectangle_inside =
      λ r b bs e. (ground (arith, e), ground (arith, e), λ x y h n. ground (arith, e, h, n));
}

-- A handler that takes presses of button 1, as that of a binding
abbrev mover : OtherHandler ℕ
mover = record {
  motion = none;
  button = some (λ s value serial pressed. (s + 1, true));
  axis = none;
  frame = none;
}

abbrev env : Surroundings Box ℕ
env = record {
  fixed = fixed;
  of_120 = λ v. v;
  regions = box_regions;
  since = record {
    frame = 5;
    axis_source = 5;
    axis_value120 = 8;
    axis_discrete = 5;
    axis_stop = 5;
  };
  other = λ _. mover;
  version = λ _. 7;
  origin_x = λ _. pos 0;
  origin_y = λ _. pos 0;
  ancestry = λ _. [];
  button_allocated = true;
  observer_allocated = true;
}

abbrev monitor : Box
monitor = record { x1 = negsuc 99; y1 = pos 0; x2 = pos 1820; y2 = pos 1080 }

abbrev of_terminal : Resource
of_terminal = record { id = 70; client = 7 }

abbrev start : Pointer Box ℕ
start = record {
  focus =
      input_focus_set (input_focus_add_resource input_focus_initialize of_terminal)
        (some (record { id = 1; client = 7 }));
  x = pos 0;
  y = pos 0;
  region = monitor;
  hotspot_x = pos 0;
  hotspot_y = pos 0;
  cursor_x = pos 0;
  cursor_y = pos 0;
  buttons = [];
  handlers =
      record { handler = other_handler 0; pending = false }
      ∷ record { handler = client_handler; pending = false }
      ∷ [];
  client_axis_source = none;
  observers = [];
  observers_initialized = false;
  last_serial = 8;
  rest = 0;
  sent = [];
}

-- Far off to the right
clip_position-OnScreen_example :
    OnScreen env (clip_position env start (from_256 (pos 9000)) (pos 0))
clip_position-OnScreen_example =
    clip_position-OnScreen env fixed-Laws box_regions-Laws start (from_256 (pos 9000)) (pos 0)
      monitor [] refl

start-Framed : Framed start
start-Framed = record { client_listed = refl; source_waits = refl }

abbrev wheel : Scroll
wheel = record { axis = 0; source = some 0; value = pos 2560; value120 = pos 120 }

step-Framed_example :
    Framed (step env start (scroll wheel))
    × ((pointer_handle_frame env (step env start (scroll wheel))).client_axis_source ≡ none)
step-Framed_example = step-Framed env start (scroll wheel) start-Framed

none_held : find_button 272 start.buttons ≡ none
unfolding find_button
none_held = refl

pointer_handle_button-paired_example :
    let serial = suc start.last_serial % 4294967296 in
    let taker = first_taker env start.handlers (record start { last_serial = serial }) 272 serial in
    let held = pointer_handle_button env start 272 true in
    let serial' = suc held.last_serial % 4294967296 in
    let told = told_release env taker (record held { last_serial = serial' }) 272 serial' in
    pointer_handle_button env held 272 false ≡ record told { buttons = start.buttons }
pointer_handle_button-paired_example = pointer_handle_button-paired env start 272 refl none_held
