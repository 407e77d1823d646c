-- ===== src/Screen/Tests.antt =====
-- A screen with a bar and a panel, and the theorems at it. The regions are boxes here.
use neoswc.Prelude.{◌+◌, ◌-◌, ◌≡◌, refl, true, false, none, [], ◌∷◌, arith}
use neoswc.Prelude.Int.{pos, negsuc, ◌+ℤ◌}
use neoswc.Prelude.Machine.{to_u32}
use neoswc.Window.{Rectangle}
use neoswc.LayerShell.{Box, LayerSurface, exclusive_edge, exclusive_size}
use neoswc.LayerShell.Requests.{layer_surface_new, restack_layer}
use neoswc.Panel.{
  Panel, docked_sent, modifier_inserted, window_raised, view_shown, update_position, position,
}
use neoswc.Panel
use neoswc.Screen.{
  Pixman, of_layer_surface, of_panel, Screen, screen_update_usable_geometry, screen_new,
  rectangle_contains_point,
}
use neoswc.Screen.Zones.{Strips, Fits, all_strips, no_strips, screen_at, meet}
use neoswc.Screen.Usable.{PixmanLaws, Reported, screen_update_usable_geometry-strips}
use neoswc.Screen.Placement.{Ranged}

abbrev of_rectangle : Rectangle → Box
of_rectangle r = record { x1 = r.x; y1 = r.y; x2 = r.x +ℤ pos r.width; y2 = r.y +ℤ pos r.height }

abbrev boxes : Pixman Box
boxes = record {
  init = record { x1 = pos 0; y1 = pos 0; x2 = pos 0; y2 = pos 0 };
  init_rect = of_rectangle;
  reset = λ _ b. b;
  intersect = meet;
  extents = λ b. b;
}

boxes-Laws : PixmanLaws boxes
unfolding ◌+ℤ◌
boxes-Laws = record {
  region = λ b. b;
  init_rect_box = λ x y w h _. ground arith;
  reset_box = λ _ _ _. refl;
  intersect_boxes = λ _ _ _. refl;
  extents_box = λ _ _. refl;
}

abbrev monitor : Rectangle
monitor = screen_at 0 0 1920 1080

abbrev bar : LayerSurface
bar =
    let made = layer_surface_new monitor monitor 2 5 in
    record made {
      mapped = true;
      current = record made.current { anchor = 13; exclusive_zone = pos 30 };
    }

abbrev dock : Panel
dock = record {
  view = monitor;
  screen = none;
  edge = 2;
  offset = 0;
  strut_size = 64;
  y_offset = 0;
  docked = true;
  calls = [];
}

abbrev screen : Screen
screen = record (screen_new [] 0 1920 1080) {
  geometry = monitor;
  modifiers = of_layer_surface bar ∷ of_panel dock ∷ [];
}

screen-at : screen.geometry ≡ monitor
screen-at = refl

abbrev kept : Strips
kept = record { top = 30; bottom = 0; left = 64; right = 0 }

strips_kept : all_strips no_strips screen.modifiers ≡ kept
unfolding screen_new layer_surface_new restack_layer exclusive_edge exclusive_size
strips_kept = refl

screen-Fits : Fits 0 0 1920 1080 (all_strips no_strips screen.modifiers)
unfolding screen_new layer_surface_new restack_layer exclusive_edge exclusive_size
screen-Fits = record {
  wide = omega arith;
  high = omega arith;
  across = omega arith;
  down = omega arith;
}

screen_update_usable_geometry-strips_example :
    let z = all_strips no_strips screen.modifiers in
    Reported
      (screen_at (0 + z.left) (0 + z.top) (1920 - (z.left + z.right)) (1080 - (z.top + z.bottom)))
      screen
      (screen_update_usable_geometry boxes screen)
screen_update_usable_geometry-strips_example =
    screen_update_usable_geometry-strips boxes boxes-Laws 0 0 1920 1080 screen screen-at screen-Fits

screen-Ranged : Ranged (screen ∷ [])
screen-Ranged = (refl, omega arith, tt)

abbrev second : Screen
second = screen_new (screen ∷ []) 1 1280 1024

-- A screen that ends at 0 or before it contains no point.
left_of_the_origin :
    rectangle_contains_point (record monitor { x = negsuc 1919 }) (negsuc 99) (pos 500) ≡ false
unfolding rectangle_contains_point to_u32
left_of_the_origin = refl

-- Nor does the column at the left edge belong to a screen.
at_the_edge : rectangle_contains_point monitor (pos 0) (pos 500) ≡ false
unfolding rectangle_contains_point to_u32
at_the_edge = refl

-- Docking on the first screen, the panel is told the length of the edge.
docked :
    (Panel.dock
      (record dock { docked = false })
      0
      (record { number = 0; geometry = monitor })
      false).calls
    ≡ docked_sent 1920 ∷ modifier_inserted 0 ∷ window_raised ∷ view_shown ∷ []
unfolding Panel.dock update_position position
docked = refl
