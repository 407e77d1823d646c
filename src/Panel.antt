-- ===== src/Panel.antt =====
-- libswc/panel.c: the panels of swc's own protocol.
-- A panel names the screen that it stands on; `calls` is the log, newest first, of what it asks for.
-- All sums are those of uint32_t, since the offsets and the strut are.
use neoswc.Prelude.{ℕ, Bool, true, not, ◌||◌, Option, none, some, List, ◌∷◌, ◌==◌, if◌then◌else◌}
use neoswc.Prelude.Int.{ℤ}
use neoswc.Prelude.Machine.{to_u32, to_i32, add_u32, sub_u32, min_u32, max_u32}
use neoswc.Window.{Rectangle}
use neoswc.LayerShell.{Box, whole}

-- `enum swc_panel_edge`
abbrev pub edge_top : ℕ
edge_top = 0

abbrev pub edge_bottom : ℕ
edge_bottom = 1

abbrev pub edge_left : ℕ
edge_left = 2

abbrev pub edge_right : ℕ
edge_right = 3

-- What a panel asks of screens, by their numbers, of the compositor and of its client
pub data Call : Type 0 where
  modifier_removed modifier_inserted usable_geometry_updated : ℕ → Call
  view_shown window_raised keyboard_focused : Call
  docked_sent : ℕ → Call

-- A screen as a panel sees it
pub record Place : Type 0 where
  pub number : ℕ
  pub geometry : Rectangle

-- `struct panel` with its view
pub record Panel : Type 0 where
  pub view : Rectangle
  pub screen : Option Place
  pub edge : ℕ
  pub offset : ℕ
  pub strut_size : ℕ
  pub y_offset : ℕ
  pub docked : Bool
  pub calls : List Call

abbrev from_start : ℤ → ℕ → ℤ
from_start origin offset = to_i32 (add_u32 (to_u32 origin) offset)

abbrev from_end : ℤ → ℕ → ℕ → ℕ → ℤ
from_end origin total size offset =
    to_i32 (sub_u32 (sub_u32 (add_u32 (to_u32 origin) total) size) offset)

-- The switch of `update_position`
unfoldable pub position : Panel → Rectangle → Option (ℤ × ℤ)
position p s =
    if p.edge == edge_top
    then some (from_start s.x p.offset, from_start s.y p.y_offset)
    else if p.edge == edge_bottom
    then some (from_start s.x p.offset, from_end s.y s.height p.view.height p.y_offset)
    else if p.edge == edge_left
    then some (s.x, from_end s.y s.height p.view.height p.offset)
    else if p.edge == edge_right
    then some (from_end s.x s.width p.view.width 0, from_start s.y p.offset)
    else none

abbrev move_view : Panel → Option (ℤ × ℤ) → Panel
move_view p none = p
move_view p (some at) = record p { view = record p.view { x = at.0; y = at.1 } }

-- `update_position`, on the panel's screen
unfoldable pub update_position : Panel → Place → Panel
update_position p place = move_view p (position p place.geometry)

abbrev on_screen : Panel → Panel
on_screen p = elim p.screen [ none ↦ p | some place ↦ update_position p place ]

abbrev log : Call → Panel → Panel
log c p = record p { calls = c ∷ p.calls }

-- The switch of `dock`: the length that the client is told
abbrev dock_length : ℕ → Rectangle → Option ℕ
dock_length edge s =
    if (edge == edge_top) || (edge == edge_bottom)
    then some s.width
    else if (edge == edge_left) || (edge == edge_right)
    then some s.height
    else none

-- The panel leaves another screen.
abbrev leave_screen : Panel → Place → Panel
leave_screen p place = elim p.screen [
  | none ↦ p
  | some old ↦
      if old.number == place.number
      then p
      else log (usable_geometry_updated old.number) (log (modifier_removed old.number) p)
]

-- `dock` on the screen that is named, or the first
unfoldable pub dock : Panel → ℕ → Place → Bool → Panel
dock p edge place focus = elim (dock_length edge place.geometry) [
  | none ↦ p
  | some length ↦
      let p' = record (leave_screen p place) { screen = some place; edge = edge; docked = true } in
      let shown =
        log (modifier_inserted place.number)
          (log window_raised (log view_shown (update_position p' place))) in
      log (docked_sent length) (if focus then log keyboard_focused shown else shown)
]

-- `set_offset`
unfoldable pub set_offset : Panel → ℕ → Panel
set_offset p offset = let p' = record p { offset = offset } in if p.docked then on_screen p' else p'

-- `set_y_offset`
unfoldable pub set_y_offset : Panel → ℕ → Panel
set_y_offset p offset =
    let p' = record p { y_offset = offset } in if p.docked then on_screen p' else p'

-- `set_strut`
unfoldable pub set_strut : Panel → ℕ → Panel
set_strut p size =
    let p' = record p { strut_size = size } in
    if not p.docked
    then p'
    else elim p.screen [ none ↦ p' | some place ↦ log (usable_geometry_updated place.number) p' ]

-- `modify`: the box that the usable region is reset to
unfoldable pub modify : Panel → Rectangle → Box
modify p geom =
    let box = whole geom in
    if p.edge == edge_top
    then record box { y1 = to_i32 (max_u32 (to_u32 box.y1) (add_u32 (to_u32 geom.y) p.strut_size)) }
    else if p.edge == edge_bottom
    then record box {
      y2 =
          to_i32
            (min_u32 (to_u32 box.y2) (sub_u32 (add_u32 (to_u32 geom.y) geom.height) p.strut_size));
    }
    else if p.edge == edge_left
    then record box { x1 = to_i32 (max_u32 (to_u32 box.x1) (add_u32 (to_u32 geom.x) p.strut_size)) }
    else if p.edge == edge_right
    then record box {
      x2 =
          to_i32
            (min_u32 (to_u32 box.x2) (sub_u32 (add_u32 (to_u32 geom.x) geom.width) p.strut_size));
    }
    else box
