-- ===== src/LayerShell.antt =====
-- libswc/layer_shell.c: the surfaces of panels, docks and wallpapers.
-- `calls` is the log, newest first, of what a surface sends to its client and asks of the compositor.
-- A surface's screen is given when it is made and never taken away, so that the tests for none fail.
pub mod Requests
pub mod Configure
mod Tests
use Prim.Native.Nat.{bit_and}
use neoswc.Prelude.{ℕ, ◌+◌, Bool, true, false, not, ◌&&◌, ◌||◌, List, [], ◌∷◌, ◌==◌, if◌then◌else◌}
use neoswc.Prelude.Int.{ℤ, pos, negsuc, ◌+ℤ◌, ◌-ℤ◌, eqb_ℤ, ltb_ℤ}
use neoswc.Prelude.Machine.{to_u32, to_i32, add_u32, sub_u32, min_u32, min_ℤ, max_ℤ, quot}
use neoswc.Window.{Rectangle}

-- `margin`
pub record Margin : Type 0 where
  pub top : ℤ
  pub right : ℤ
  pub bottom : ℤ
  pub left : ℤ

-- `struct layer_surface_state`
pub record LayerState : Type 0 where
  pub layer : ℕ
  pub anchor : ℕ
  pub exclusive_zone : ℤ
  pub exclusive_edge : ℕ
  pub keyboard_interactivity : ℕ
  pub margin : Margin
  pub desired_width : ℕ
  pub desired_height : ℕ

pub data Call : Type 0 where
  configure_sent : ℕ → ℕ → ℕ → Call
  stack_layer_set : ℕ → Call
  view_shown view_hidden keyboard_focused usable_geometry_updated modifier_removed view_destroyed :
      Call

-- `struct layer_surface`, with its view and the geometry of its screen
pub record LayerSurface : Type 0 where
  pub view : Rectangle
  pub has_buffer : Bool
  pub always_top : Bool
  pub screen : Rectangle
  pub current : LayerState
  pub pending : LayerState
  pub configure_serial : ℕ
  pub configured : Bool
  pub mapped : Bool
  pub last_serial : ℕ
  pub calls : List Call

-- `pixman_box32_t`
pub record Box : Type 0 where
  pub x1 : ℤ
  pub y1 : ℤ
  pub x2 : ℤ
  pub y2 : ℤ

-- `enum zwlr_layer_surface_v1_anchor`
abbrev pub anchor_top : ℕ
anchor_top = 1

abbrev pub anchor_bottom : ℕ
anchor_bottom = 2

abbrev pub anchor_left : ℕ
anchor_left = 4

abbrev pub anchor_right : ℕ
anchor_right = 8

abbrev pub has_anchor : ℕ → ℕ → Bool
has_anchor anchor a = not (bit_and anchor a == 0)

abbrev same_margin : Margin → Margin → Bool
same_margin a b =
    eqb_ℤ a.top b.top && eqb_ℤ a.right b.right && eqb_ℤ a.bottom b.bottom && eqb_ℤ a.left b.left

-- `state_equal`
unfoldable pub state_equal : LayerState → LayerState → Bool
state_equal a b =
    (a.layer == b.layer)
    && (a.anchor == b.anchor)
    && eqb_ℤ a.exclusive_zone b.exclusive_zone
    && (a.exclusive_edge == b.exclusive_edge)
    && (a.keyboard_interactivity == b.keyboard_interactivity)
    && same_margin a.margin b.margin
    && (a.desired_width == b.desired_width)
    && (a.desired_height == b.desired_height)

-- `available_size`
unfoldable pub available_size : ℕ → ℤ → ℤ → ℤ
available_size size start_margin end_margin =
    max_ℤ (to_i32 size -ℤ start_margin -ℤ end_margin) (pos 0)

-- `configure_size`
unfoldable pub configure_size : ℕ → ℕ → ℕ → ℕ → ℕ → ℤ → ℤ → ℕ
configure_size desired anchor first_anchor second_anchor total_size start_margin end_margin =
    if not (desired == 0)
    then desired
    else if has_anchor anchor first_anchor && has_anchor anchor second_anchor
    then to_u32 (available_size total_size start_margin end_margin)
    else 0

-- `exclusive_edge`
unfoldable pub exclusive_edge : LayerState → ℕ
exclusive_edge s =
    if not (s.exclusive_edge == 0)
    then s.exclusive_edge
    else if (s.anchor == 13) || (s.anchor == 1)
    then anchor_top
    else if (s.anchor == 14) || (s.anchor == 2)
    then anchor_bottom
    else if (s.anchor == 7) || (s.anchor == 4)
    then anchor_left
    else if (s.anchor == 11) || (s.anchor == 8)
    then anchor_right
    else 0

-- The inner switch of `exclusive_size`: the size of the surface itself
unfoldable pub own_size : LayerState → Rectangle → ℤ
own_size s view =
    let edge = exclusive_edge s in
    if edge == anchor_top
    then to_i32 view.height +ℤ s.margin.top
    else if edge == anchor_bottom
    then to_i32 view.height +ℤ s.margin.bottom
    else if edge == anchor_left
    then to_i32 view.width +ℤ s.margin.left
    else if edge == anchor_right
    then to_i32 view.width +ℤ s.margin.right
    else pos 0

-- `exclusive_size`
unfoldable pub exclusive_size : LayerSurface → ℤ
exclusive_size s =
    if eqb_ℤ s.current.exclusive_zone (pos 0)
    then pos 0
    else if eqb_ℤ s.current.exclusive_zone (negsuc 0)
    then own_size s.current s.view
    else max_ℤ s.current.exclusive_zone (pos 0)

abbrev pub whole : Rectangle → Box
whole geom = record {
  x1 = geom.x;
  y1 = geom.y;
  x2 = to_i32 (add_u32 (to_u32 geom.x) geom.width);
  y2 = to_i32 (add_u32 (to_u32 geom.y) geom.height);
}

-- The last switch of `modify`. The differences, and with them the minima, are those of uint32_t.
unfoldable pub shrink : Rectangle → ℕ → ℤ → Box
shrink geom edge size =
    let box = whole geom in
    if edge == anchor_top
    then record box { y1 = max_ℤ box.y1 (geom.y +ℤ size) }
    else if edge == anchor_bottom
    then record box {
      y2 =
          to_i32
            (min_u32 (to_u32 box.y2) (sub_u32 (add_u32 (to_u32 geom.y) geom.height) (to_u32 size)));
    }
    else if edge == anchor_left
    then record box { x1 = max_ℤ box.x1 (geom.x +ℤ size) }
    else if edge == anchor_right
    then record box {
      x2 =
          to_i32
            (min_u32 (to_u32 box.x2) (sub_u32 (add_u32 (to_u32 geom.x) geom.width) (to_u32 size)));
    }
    else box

-- `modify`: the box that the usable region is reset to
unfoldable pub modify : LayerSurface → Rectangle → Box
modify s geom =
    if not s.mapped
    then whole geom
    else if not (ltb_ℤ (pos 0) (exclusive_size s))
    then whole geom
    else shrink geom (exclusive_edge s.current) (exclusive_size s)
