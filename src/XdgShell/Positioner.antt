-- ===== src/XdgShell/Positioner.antt =====
-- libswc/xdg_shell.c: the positioner of a popup.
use neoswc.Prelude.{ℕ, ◌/◌, Bool, true, false, not, ◌||◌, if◌then◌else◌}
use neoswc.Prelude.Int.{ℤ, pos, ◌+ℤ◌, ltb_ℤ}
use neoswc.Prelude.Machine.{to_u32, to_i32, sub_u32, quot}
use neoswc.Window.{Rectangle}

-- The values of `enum xdg_positioner_anchor` and of `enum xdg_positioner_gravity`; a value that is
-- none of these is handled as `no_edge`.
pub data Edge : Type 0 where
  no_edge top bottom left right top_left bottom_left top_right bottom_right : Edge

-- `struct xdg_positioner`
pub record Positioner : Type 0 where
  pub width : ℤ
  pub height : ℤ
  pub anchor_x : ℤ
  pub anchor_y : ℤ
  pub anchor_width : ℤ
  pub anchor_height : ℤ
  pub anchor : Edge
  pub gravity : Edge
  pub constraint : ℕ
  pub offset_x : ℤ
  pub offset_y : ℤ

-- The sides of an edge: the start, the end or the middle of an axis
pub data Side : Type 0 where
  start middle end : Side

abbrev pub side_y : Edge → Side
side_y top = start
side_y top_left = start
side_y top_right = start
side_y bottom = end
side_y bottom_left = end
side_y bottom_right = end
side_y _ = middle

abbrev pub side_x : Edge → Side
side_x left = start
side_x top_left = start
side_x bottom_left = start
side_x right = end
side_x top_right = end
side_x bottom_right = end
side_x _ = middle

-- A case of the first two switches of `calculate_position`
unfoldable pub add_anchor : Side → ℤ → ℤ → ℤ → ℤ
add_anchor start v origin size = v +ℤ origin
add_anchor end v origin size = v +ℤ (origin +ℤ size)
add_anchor middle v origin size = v +ℤ (origin +ℤ quot size 2)

-- A case of the last two: the size is uint32_t.
unfoldable pub sub_gravity : Side → ℤ → ℕ → ℤ
sub_gravity start v size = to_i32 (sub_u32 (to_u32 v) size)
sub_gravity end v size = v
sub_gravity middle v size = to_i32 (sub_u32 (to_u32 v) (size / 2))

-- `calculate_position`
unfoldable pub calculate_position : Positioner → Rectangle
calculate_position p =
    let w = to_u32 p.width in
    let h = to_u32 p.height in
    record {
      x =
          sub_gravity (side_x p.gravity)
            (add_anchor (side_x p.anchor) p.offset_x p.anchor_x p.anchor_width) w;
      y =
          sub_gravity (side_y p.gravity)
            (add_anchor (side_y p.anchor) p.offset_y p.anchor_y p.anchor_height) h;
      width = w;
      height = h;
    }

-- The requests of a positioner
pub data Request : Type 0 where
  set_size : ℤ → ℤ → Request
  set_anchor_rect : ℤ → ℤ → ℤ → ℤ → Request
  set_anchor set_gravity : Edge → Request
  set_constraint_adjustment : ℕ → Request
  set_offset : ℤ → ℤ → Request

abbrev not_positive : ℤ → ℤ → Bool
not_positive a b = not (ltb_ℤ (pos 0) a) || not (ltb_ℤ (pos 0) b)

-- What a request does, and whether it is answered with the error `invalid_input`
unfoldable pub handle_request : Positioner → Request → Positioner × Bool
handle_request p (set_size w h) =
    if not_positive w h then (p, true) else (record p { width = w; height = h }, false)
handle_request p (set_anchor_rect x y w h) =
    if not_positive w h
    then (p, true)
    else (record p { anchor_x = x; anchor_y = y; anchor_width = w; anchor_height = h }, false)
handle_request p (set_anchor e) = (record p { anchor = e }, false)
handle_request p (set_gravity e) = (record p { gravity = e }, false)
handle_request p (set_constraint_adjustment c) = (record p { constraint = c }, false)
handle_request p (set_offset x y) = (record p { offset_x = x; offset_y = y }, false)
