-- ===== src/XdgShell/Tests.antt =====
-- A toplevel and a menu, and the theorems at them.
use neoswc.Prelude.{◌≤◌, ◌≡◌, refl, true, false, [], ◌∷◌, arith}
use neoswc.Prelude.Int.{pos, ◌+ℤ◌}
use neoswc.Window.{stacked, fullscreen}
use neoswc.XdgShell.{Toplevel, activated_state, configure, ack_configure, set_mode}
use neoswc.XdgShell.Positioner.{
  Positioner, bottom_left, bottom_right, side_x, side_y, add_anchor, sub_gravity,
  calculate_position,
}
use neoswc.XdgShell.Anchored.{Sound, along, opposite, target, calculate_position-meets}
use neoswc.XdgShell.Acknowledged.{run, focused, ack_configure-exact}

-- Below a button of 60 by 20 at (100, 10)
abbrev menu : Positioner
menu = record {
  width = pos 200;
  height = pos 300;
  anchor_x = pos 100;
  anchor_y = pos 10;
  anchor_width = pos 60;
  anchor_height = pos 20;
  anchor = bottom_left;
  gravity = bottom_right;
  constraint = 0;
  offset_x = pos 0;
  offset_y = pos 2;
}

menu_below : (calculate_position menu).y ≡ pos 32
unfolding calculate_position add_anchor sub_gravity ◌+ℤ◌
menu_below = refl

menu-Sound : Sound menu
unfolding ◌+ℤ◌
menu-Sound = record {
  width_pos = refl;
  width_small = omega arith;
  height_pos = refl;
  height_small = omega arith;
  anchor_width_pos = refl;
  anchor_height_pos = refl;
  target_x = (omega arith, omega arith);
  target_y = (omega arith, omega arith);
}

calculate_position-meets_example :
    let r = calculate_position menu in
    (r.width ≡ 200)
    × (r.height ≡ 300)
    × (r.x +ℤ pos (along (opposite (side_x menu.gravity)) r.width)
        ≡ target (side_x menu.anchor) (pos 0) (pos 100) (pos 60))
    × (r.y +ℤ pos (along (opposite (side_y menu.gravity)) r.height)
        ≡ target (side_y menu.anchor) (pos 2) (pos 10) (pos 20))
calculate_position-meets_example = calculate_position-meets menu menu-Sound

abbrev terminal : Toplevel
terminal = record {
  states = activated_state ∷ [];
  mode = stacked;
  view_width = 640;
  view_height = 480;
  configure_width = 0;
  configure_height = 0;
  acknowledged = true;
  configure_serial = 3;
  last_serial = 9;
  sent = [];
}

-- It leaves fullscreen, and is tiled again.
abbrev whole : Toplevel
whole = set_mode true terminal fullscreen

-- The client answers the configure event of the focus, the last one that it was sent.
ack_configure-exact_example :
    let t' = run (configure terminal 800 600) (focused true ∷ []) in
    (t'.configure_serial ≡ 10)
    × (10 ≤ t'.last_serial)
    × ((ack_configure t' 11).acknowledged ≡ false)
ack_configure-exact_example =
    ack_configure-exact terminal 800 600 (focused true ∷ []) 11 (omega arith)
