-- ===== src/Pointer.antt =====
-- libswc/pointer.c: the position of the pointer, its buttons and axes, and the handlers of these.
-- The handlers are the client's, that of the observers, and those of other files, which are a
-- parameter together with the fixed-point numbers of libwayland and the regions of pixman. The
-- images of the cursor are left out; times are too.
pub mod Position
pub mod Handlers
pub mod Events
pub mod Inside
pub mod Framed
pub mod Step
pub mod Buttons
mod Tests
use neoswc.Prelude.{ℕ, Bool, Option, none, some, List, [], ◌∷◌, ◌==◌, ◌&&◌, true, false}
use neoswc.Prelude.Int.{ℤ, ltb_ℤ}
use neoswc.Focus.{InputFocus}
use neoswc.LayerShell.{Box}

-- `wl_fixed_to_int`, `wl_fixed_from_int`, and the differences and sums of wl_fixed_t
pub record Fixed : Type 0 where
  pub to_int : ℤ → ℤ
  pub from_int : ℤ → ℤ

-- `pixman_region32_contains_point`, with the box that it finds, and `pixman_region32_rectangles`
pub record Regions (R : Type 0) : Type 0 where
  pub contains_point : R → ℤ → ℤ → Option Box
  pub rectangles : R → List Box

-- `struct pointer_handler`, by whose it is
pub data Handler : Type 0 where
  client_handler observer_handler : Handler
  other_handler : ℕ → Handler

-- A link of `pointer->handlers`
pub record Link : Type 0 where
  pub handler : Handler
  pub pending : Bool

-- `struct button`
pub record Button : Type 0 where
  pub value : ℕ
  pub serial : ℕ
  pub handler : Option Handler

-- What a call of `axis` is about; `source` is `none` for -1.
pub record Scroll : Type 0 where
  pub axis : ℕ
  pub source : Option ℕ
  pub value : ℤ
  pub value120 : ℤ

-- What is sent to a client's pointer objects, each by its number
pub data Message : Type 0 where
  motion_sent : ℕ → ℤ → ℤ → Message
  button_sent : ℕ → ℕ → ℕ → Bool → Message
  axis_source_sent : ℕ → ℕ → Message
  axis_value120_sent : ℕ → ℕ → ℤ → Message
  axis_discrete_sent : ℕ → ℕ → ℤ → Message
  axis_sent : ℕ → ℕ → ℤ → Message
  axis_stop_sent : ℕ → ℕ → Message
  frame_sent : ℕ → Message

-- The functions of a handler of another file, any of which may be NULL
pub record OtherHandler (S : Type 0) : Type 0 where
  pub motion : Option (S → ℤ → ℤ → S × Bool)
  pub button : Option (S → ℕ → ℕ → Bool → S × Bool)
  pub axis : Option (S → Scroll → S × Bool)
  pub frame : Option (S → S)

-- `struct pointer_observer`, whose function may be NULL, and which is told the window of the press
pub record Observer (S : Type 0) : Type 0 where
  pub id : ℕ
  pub button : Option (S → ℕ → Bool → Option ℕ → S)

-- A view, as the walk to the window of a press sees it
pub record Ancestor : Type 0 where
  pub window : Option ℕ
  pub subsurface : Bool

-- The versions of wl_pointer that the events came with
pub record Since : Type 0 where
  pub frame : ℕ
  pub axis_source : ℕ
  pub axis_value120 : ℕ
  pub axis_discrete : ℕ
  pub axis_stop : ℕ

-- libwayland and pixman, the handlers of other files, the versions of the pointer objects, where the
-- buffer of a view begins, and a view with its parents, from the view up.
-- `of_120` is the conversion of value120 / 120.0 to wl_fixed_t.
pub record Surroundings (R : Type 0) (S : Type 0) : Type 0 where
  pub fixed : Fixed
  pub of_120 : ℤ → ℤ
  pub regions : Regions R
  pub since : Since
  pub other : ℕ → OtherHandler S
  pub version : ℕ → ℕ
  pub origin_x : ℕ → ℤ
  pub origin_y : ℕ → ℤ
  pub ancestry : ℕ → List Ancestor
  pub button_allocated : Bool
  pub observer_allocated : Bool

-- `struct pointer` with the observers
pub record Pointer (R : Type 0) (S : Type 0) : Type 0 where
  pub focus : InputFocus
  pub x : ℤ
  pub y : ℤ
  pub region : R
  pub hotspot_x : ℤ
  pub hotspot_y : ℤ
  pub cursor_x : ℤ
  pub cursor_y : ℤ
  pub buttons : List Button
  pub handlers : List Link
  pub client_axis_source : Option ℕ
  pub observers : List (Observer S)
  pub observers_initialized : Bool
  pub last_serial : ℕ
  pub rest : S
  pub sent : List Message

abbrev pub same_handler : Handler → Handler → Bool
same_handler client_handler client_handler = true
same_handler observer_handler observer_handler = true
same_handler (other_handler a) (other_handler b) = a == b
same_handler _ _ = false
