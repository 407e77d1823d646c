-- ===== src/Screen.antt =====
-- libswc/screen.c: the area of a screen that is left for windows, and the screen of the pointer.
-- pixman is a parameter. `calls` is the log, newest first, of the handler's functions.
pub mod Zones
pub mod Usable
pub mod Placement
mod Tests
use neoswc.Prelude.{
  ℕ, ◌<◌, ◌≡◌, Bool, true, false, not, ◌&&◌, Option, none, some, List, [], ◌∷◌, ◌++◌, ltb, ◌==◌,
  if◌then◌else◌,
}
use neoswc.Prelude.Int.{ℤ, pos, ◌+ℤ◌, ◌-ℤ◌, ltb_ℤ, eqb_ℤ}
use neoswc.Prelude.Machine.{to_u32, to_i32, add_u32, max_u32}
use neoswc.Window.{Rectangle}
use neoswc.LayerShell.{Box, LayerSurface}
use neoswc.LayerShell
use neoswc.Panel.{Panel}
use neoswc.Panel

-- The functions of pixman that are called
pub record Pixman (R : Type 0) : Type 0 where
  pub init : R
  pub init_rect : Rectangle → R
  pub reset : R → Box → R
  pub intersect : R → R → R
  pub extents : R → Box

-- `struct screen_modifier`, by whose it is
pub data Modifier : Type 0 where
  of_layer_surface : LayerSurface → Modifier
  of_panel : Panel → Modifier

pub data Call : Type 0 where
  usable_geometry_changed geometry_changed entered : Call

-- `struct screen`
pub record Screen : Type 0 where
  pub number : ℕ
  pub geometry : Rectangle
  pub usable_geometry : Rectangle
  pub modifiers : List Modifier
  pub calls : List Call

-- `swc.screens` and `active_screen`
pub record Screens : Type 0 where
  pub screens : List Screen
  pub active_screen : Option ℕ

unfoldable pub modify : Modifier → Rectangle → Box
modify (of_layer_surface s) geom = LayerShell.modify s geom
modify (of_panel p) geom = Panel.modify p geom

abbrev log : Call → Screen → Screen
log c s = record s { calls = c ∷ s.calls }

abbrev of_box : Box → Rectangle
of_box b = record {
  x = b.x1;
  y = b.y1;
  width = to_u32 (b.x2 -ℤ b.x1);
  height = to_u32 (b.y2 -ℤ b.y1);
}

abbrev same_rectangle : Rectangle → Rectangle → Bool
same_rectangle a b =
    eqb_ℤ a.x b.x && eqb_ℤ a.y b.y && (a.width == b.width) && (a.height == b.height)

-- The end of `screen_update_usable_geometry`: what changes, and the call of the handler
abbrev pub set_usable_geometry : Rectangle → Screen → Screen
set_usable_geometry r s =
    if same_rectangle r s.usable_geometry
    then s
    else log usable_geometry_changed (record s { usable_geometry = r })

module _ {R : Type 0} (pixman : Pixman R) where
  -- The loop of `screen_update_usable_geometry`: `usable`, and what it leaves of `total_usable`
  unfoldable pub total_usable : Rectangle → List Modifier → R → R → R
  total_usable geom [] usable total = total
  total_usable geom (m ∷ ms) usable total =
      let usable' = pixman.reset usable (modify m geom) in
      total_usable geom ms usable' (pixman.intersect total usable')

  -- `screen_update_usable_geometry`
  unfoldable pub screen_update_usable_geometry : Screen → Screen
  screen_update_usable_geometry s =
      let total = total_usable s.geometry s.modifiers pixman.init (pixman.init_rect s.geometry) in
      set_usable_geometry (of_box (pixman.extents total)) s

  -- `swc_screen_set_position`, as far as the screen itself goes
  unfoldable pub swc_screen_set_position : Screen → ℤ → ℤ → Screen
  swc_screen_set_position s x y =
      if eqb_ℤ s.geometry.x x && eqb_ℤ s.geometry.y y
      then s
      else log geometry_changed (
          screen_update_usable_geometry
            (record s { geometry = record s.geometry { x = x; y = y } }))

-- `rectangle_contains_point`; the sums, and the tests against them, are those of uint32_t.
unfoldable pub rectangle_contains_point : Rectangle → ℤ → ℤ → Bool
rectangle_contains_point r x y =
    ltb_ℤ r.x x
    && ltb (to_u32 x) (add_u32 (to_u32 r.x) r.width)
    && ltb_ℤ r.y y
    && ltb (to_u32 y) (add_u32 (to_u32 r.y) r.height)

abbrev is_active : Option ℕ → ℕ → Bool
is_active none n = false
is_active (some m) n = m == n

-- The loop of `handle_motion`
unfoldable pub enter_screen : Option ℕ → List Screen → ℤ → ℤ → List Screen × Option ℕ
enter_screen active [] x y = ([], active)
enter_screen active (s ∷ ss) x y =
    let (ss', active') = enter_screen active ss x y in
    if rectangle_contains_point s.geometry x y
    then if is_active active s.number then (s ∷ ss, active) else (log entered s ∷ ss, some s.number)
    else (s ∷ ss', active')

-- `handle_motion` at whole coordinates
unfoldable pub handle_motion : Screens → ℤ → ℤ → Screens
handle_motion w x y =
    let (screens, active) = enter_screen w.active_screen w.screens x y in
    record { screens = screens; active_screen = active }

-- The loop of `screen_new`: where the new screen is put, as uint32_t
unfoldable pub new_position : List Screen → ℕ → ℕ
new_position [] x = x
new_position (s ∷ ss) x =
    new_position ss (max_u32 x (add_u32 (to_u32 s.geometry.x) s.geometry.width))

-- `screen_new` when nothing fails, for a mode of the given size; drm.c inserts it in the list.
unfoldable pub screen_new : List Screen → ℕ → ℕ → ℕ → Screen
screen_new screens number width height =
    let geometry : Rectangle = record {
      x = to_i32 (new_position screens 0);
      y = pos 0;
      width = width;
      height = height;
    } in
    record {
      number = number;
      geometry = geometry;
      usable_geometry = geometry;
      modifiers = [];
      calls = [];
    }
