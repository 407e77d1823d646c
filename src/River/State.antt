-- ===== src/River/State.antt =====
-- wm/river_wm.c: what the window manager's side keeps of windows, outputs and the sequence.
-- Objects of the client are known by numbers. A closed window is off the list `wm.windows`, so the
-- loops over that list pass over the closed ones here. Of an output only its object is kept.
use neoswc.Prelude.{ℕ, Bool, true, false, Option, none, some, List, [], ◌∷◌, ◌==◌, if◌then◌else◌}
use neoswc.Prelude.Int.{ℤ}
use neoswc.Transaction.{is_some}
use neoswc.Cohort.{Cohort}
use neoswc.River.Events.{Message, Binding, BindingEvent, Receivers}

-- `enum phase`
pub data Phase : Type 0 where
  idle manage settle render : Phase

abbrev pub is_idle : Phase → Bool
is_idle idle = true
is_idle _ = false

abbrev pub is_manage : Phase → Bool
is_manage manage = true
is_manage _ = false

abbrev pub is_render : Phase → Bool
is_render render = true
is_render _ = false

-- `struct river_window`
pub record RiverWindow : Type 0 where
  pub id : ℕ
  pub swc : Option ℕ
  pub resource : Option ℕ
  pub node : Option ℕ
  pub advertised : Bool
  pub closed : Bool
  pub has_proposal : Bool
  pub proposed_width : ℤ
  pub proposed_height : ℤ
  pub sent_width : ℕ
  pub sent_height : ℕ

-- `struct river_output`
pub record RiverOutput : Type 0 where
  pub id : ℕ
  pub resource : Bool
  pub advertised : Bool

-- The static `wm`, less the globals, the screen and the layer-shell seat, with the windows of libswc below it and the messages sent, newest first.
-- `idle_pending` is `wm.idle`; a seat is given by the version of its object; `pointer` is the
-- position last sent, if any.
pub record Wm : Type 0 where
  pub manager : Option ℕ
  pub idle_pending : Bool
  pub phase : Phase
  pub dirty : Bool
  pub windows : List RiverWindow
  pub outputs : List RiverOutput
  pub seat : Option ℕ
  pub xkb_seat : Option ℕ
  pub bindings : List Binding
  pub pending : List BindingEvent
  pub pointer : Option (ℤ × ℤ)
  pub eat_next_key : Bool
  pub watched_modifiers : ℕ
  pub cohort : Cohort
  pub sent : List Message

-- What libwayland and the rest of libswc answer: whether an object, the idle source, the
-- transaction with its timer and its members could be made, the number of a new object, the version
-- of the manager's, the pointer in fixed-point units, and `wl_fixed_to_int`.
pub record Env : Type 0 where
  pub window_object : ℕ → Option ℕ
  pub output_object : ℕ → Bool
  pub seat_object : Bool
  pub idle_added : Bool
  pub loop : Bool
  pub allocated : Bool
  pub joined : ℕ → Bool
  pub timer_added : Bool
  pub version : ℕ
  pub cursor : Option (ℤ × ℤ)
  pub fixed_to_int : ℤ → ℤ

unfoldable pub find_window : ℕ → List RiverWindow → Option RiverWindow
find_window i [] = none
find_window i (w ∷ ws) = if w.id == i then some w else find_window i ws

-- A write through the pointer to window `i`.
unfoldable pub modify : ℕ → (RiverWindow → RiverWindow) → List RiverWindow → List RiverWindow
modify i g [] = []
modify i g (w ∷ ws) = if w.id == i then g w ∷ ws else w ∷ modify i g ws

unfoldable pub free_window : ℕ → List RiverWindow → List RiverWindow
free_window i [] = []
free_window i (w ∷ ws) = if w.id == i then ws else w ∷ free_window i ws

-- `event->window->resource`
abbrev pub known : List RiverWindow → ℕ → Bool
known ws i = elim (find_window i ws) [ none ↦ false | some w ↦ is_some w.resource ]

abbrev pub receivers : Wm → Receivers
receivers wm = record {
  bindings = wm.bindings;
  xkb_seat = wm.xkb_seat;
  seat = wm.seat;
  known = known wm.windows;
}
