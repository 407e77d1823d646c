-- ===== src/Cohort/Modes.antt =====
-- Sizes within a window's limits, and the way into fullscreen and back.
use neoswc.Prelude.{
  ℕ, ◌≡◌, Bool, true, false, Option, none, arith, ◌<◌, ◌≤◌, ◌^◌, ◌⊎◌, ◌∙◌, suc, ◌%◌, if◌then◌else◌,
}
use neoswc.Prelude.Int.{ℤ, pos, negsuc, eqb_ℤ}
use neoswc.Window.{is_tiled, Rectangle, Window, flush, clamp_dimension, size_settled, fullscreen}
use neoswc.Cohort.{Cohort, Outcome, set_position, set_size, set_geometry, set_fullscreen}

-- A size below 2 ^ 31 that is asked for comes out within the limits that are set, a maximum below
-- the minimum counting as the minimum; and it comes out unchanged if it is within them already.
pub clamp_dimension_bounds :
    (value least most : ℕ)
    → value < 2 ^ 31
    → let r = clamp_dimension value least most in
      (least ≤ r)
      × ((most ≡ 0) ⊎ (r ≤ most) ⊎ (r ≤ least))
      × (least ≤ value → (most ≡ 0) ⊎ (value ≤ most) → r ≡ value)
unfolding clamp_dimension
clamp_dimension_bounds value least most h = ground arith

eqb_ℤ-eq : (a b : ℤ) → eqb_ℤ a b ≡ true → a ≡ b
eqb_ℤ-eq (pos a) (pos b) h = ground arith
eqb_ℤ-eq (pos a) (negsuc b) h = cc
eqb_ℤ-eq (negsuc a) (pos b) h = cc
eqb_ℤ-eq (negsuc a) (negsuc b) h = ground arith

-- The serial behind a request for the size of `g`, within the window's limits
abbrev pub serial_asked : Window → Rectangle → ℕ
serial_asked w g =
    if size_settled w (clamp_dimension g.width w.min_width w.max_width)
      (clamp_dimension g.height w.min_height w.max_height)
    then w.serial
    else suc w.serial % 2 ^ 32

-- What `swc_window_set_geometry` does outside a cohort to a window that is not tiled.
record Placed (c : Cohort) (i : ℕ) (g : Rectangle) (d : Cohort) : Type 0 where
  closed : d.barrier ≡ none
  at_x : (d.window i).geometry.x ≡ g.x
  at_y : (d.window i).geometry.y ≡ g.y
  asked : (d.window i).serial ≡ serial_asked (c.window i) g
  same_mode : (d.window i).mode ≡ (c.window i).mode
  unasked : (d.window i).configure_pending ≡ false
  same_prev : (d.window i).prev_mode ≡ (c.window i).prev_mode
  same_prev_geometry : (d.window i).prev_geometry ≡ (c.window i).prev_geometry

set_size_alone :
    (allocated : Bool) (c : Cohort) (i width height : ℕ)
    → c.barrier ≡ none
    → is_tiled (c.window i).mode ≡ false
    → (c.window i).configure_pending ≡ false
    → let d = (set_size allocated c i width height).0 in
      (d.barrier ≡ none)
      × ((d.window i).mode ≡ (c.window i).mode)
      × ((d.window i).configure_pending ≡ false)
      × ((d.window i).prev_mode ≡ (c.window i).prev_mode)
      × ((d.window i).prev_geometry ≡ (c.window i).prev_geometry)
      × ((d.window i).serial
          ≡ serial_asked
              (c.window i)
              (record { x = pos 0; y = pos 0; width = width; height = height }))
unfolding set_size
set_size_alone allocated c i width height e m p = ground arith

set_position_alone :
    (allocated : Bool) (c : Cohort) (i : ℕ) (x y : ℤ)
    → c.barrier ≡ none
    → (c.window i).configure_pending ≡ false
    → let d = (set_position allocated c i x y).0 in
      (d.barrier ≡ none)
      × ((d.window i).geometry.x ≡ x)
      × ((d.window i).geometry.y ≡ y)
      × ((d.window i).mode ≡ (c.window i).mode)
      × ((d.window i).configure_pending ≡ false)
      × ((d.window i).prev_mode ≡ (c.window i).prev_mode)
      × ((d.window i).prev_geometry ≡ (c.window i).prev_geometry)
      × ((d.window i).serial ≡ (c.window i).serial)
unfolding set_position flush
set_position_alone allocated c i x y e p =
    ground (arith, eqb_ℤ-eq x (c.window i).geometry.x, eqb_ℤ-eq y (c.window i).geometry.y)

set_geometry_alone :
    (allocated : Bool) (c : Cohort) (i : ℕ) (g : Rectangle)
    → c.barrier ≡ none
    → is_tiled (c.window i).mode ≡ false
    → (c.window i).configure_pending ≡ false
    → Placed c i g (set_geometry allocated c i g).0
unfolding set_geometry
set_geometry_alone allocated c i g e m p =
    let sized = set_size_alone allocated c i g.width g.height e m p in
    let d : Cohort = (set_size allocated c i g.width g.height).0 in
    let placed = set_position_alone allocated d i g.x g.y sized.0 sized.2 in
    record {
      closed = placed.0;
      at_x = placed.1;
      at_y = placed.2;
      asked = placed.7 ∙ sized.5;
      same_mode = placed.3 ∙ sized.1;
      unasked = placed.4;
      same_prev = placed.5 ∙ sized.3;
      same_prev_geometry = placed.6 ∙ sized.4;
    }

-- A window in fullscreen over `usable` that can find its way back to where `w` is.
abbrev Entered : Window → ℕ → Rectangle → Outcome → Type 0
Entered w i usable (d, _) =
    (d.barrier ≡ none)
    × ((d.window i).mode ≡ fullscreen)
    × ((d.window i).geometry.x ≡ usable.x)
    × ((d.window i).geometry.y ≡ usable.y)
    × ((d.window i).configure_pending ≡ false)
    × ((d.window i).prev_mode ≡ w.mode)
    × ((d.window i).prev_geometry ≡ w.geometry)
    × ((d.window i).serial ≡ serial_asked w usable)

leave_fullscreen :
    (allocated : Bool) (c : Cohort) (i : ℕ) (screen : Option Rectangle)
    → c.barrier ≡ none
    → (c.window i).mode ≡ fullscreen
    → (c.window i).configure_pending ≡ false
    → let w = c.window i in
      let w' = (set_fullscreen allocated c i screen).0.window i in
      (w'.mode ≡ w.prev_mode)
      × (w'.geometry.x ≡ w.prev_geometry.x)
      × (w'.geometry.y ≡ w.prev_geometry.y)
unfolding set_fullscreen
leave_fullscreen allocated c i screen e m p =
    let back = set_geometry_alone allocated c i (c.window i).prev_geometry e (ground arith) p in
    ground (arith, back.at_x, back.at_y)
