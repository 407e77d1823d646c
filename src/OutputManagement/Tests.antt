-- ===== src/OutputManagement/Tests.antt =====
-- Two screens that a client puts in another order, and the theorems at them.
use neoswc.Prelude.{
  ℕ, ◌<◌, ◌≡◌, ◌≢◌, refl, true, false, some, [], ◌∷◌, arith, length, ◌==◌, not, if◌then◌else◌,
}
use neoswc.Prelude.Int.{pos, ◌+ℤ◌}
use neoswc.LayerShell.{Box}
use neoswc.Screen.{
  Pixman, Screen, swc_screen_set_position, screen_update_usable_geometry, total_usable,
}
use neoswc.Screen.Zones.{screen_at, meet}
use neoswc.OutputManagement.{
  Configuration, World, Mode, stays, move_in, move_screen, output_management_update,
}
use neoswc.OutputManagement.Requests.{
  config_head_get, config_enable_head, config_add_head, set_position, handle_request, request_on,
  manager_create_configuration, config_apply, config_test, config_use, config_finish,
  config_is_valid, all_supported, all_named, move_all, cancelled, failed, succeeded, already_used,
}
use neoswc.OutputManagement.Apply.{places, distinct_heads, Answered, config_apply-Answered}
use neoswc.OutputManagement.Stale.{config_apply-cancels}

abbrev boxes : Pixman Box
boxes = record {
  init = record { x1 = pos 0; y1 = pos 0; x2 = pos 0; y2 = pos 0 };
  init_rect = λ r. record { x1 = r.x; y1 = r.y; x2 = r.x +ℤ pos r.width; y2 = r.y +ℤ pos r.height };
  reset = λ _ b. b;
  intersect = meet;
  extents = λ b. b;
}

abbrev monitor : ℕ → ℕ → Screen
monitor n x = record {
  number = n;
  geometry = screen_at x 0 1920 1080;
  usable_geometry = screen_at x 0 1920 1080;
  modifiers = [];
  calls = [];
}

abbrev desk : World
desk = record {
  screens = monitor 0 0 ∷ monitor 1 1920 ∷ [];
  managers = [];
  current_serial = 7;
  sent = [];
}

abbrev full_hd : Mode
full_hd = record { width = 1920; height = 1080; refresh = 60000; preferred = true }

-- The heads are enabled, and the positions exchanged.
abbrev enabled : Configuration
enabled =
    (config_enable_head (config_enable_head (manager_create_configuration 7) (some 0) true).0
      (some 1) true).0

abbrev swapped : Configuration
swapped = record enabled {
  heads =
      request_on full_hd 1 (set_position (pos 0) (pos 0))
        (request_on full_hd 0 (set_position (pos 1920) (pos 0)) enabled.heads);
}

swapped_distinct : distinct_heads swapped.heads ≡ true
unfolding config_add_head config_head_get request_on handle_request
swapped_distinct = refl

swapped_fresh : swapped.used ≡ false
unfolding config_add_head config_head_get
swapped_fresh = refl

swapped_serial : swapped.serial ≡ 7
unfolding config_add_head config_head_get
swapped_serial = refl

swapped_short : length swapped.heads < 4294967296
unfolding config_add_head config_head_get request_on handle_request
swapped_short = omega arith

config_apply-Answered_example :
    let (c', w', answer) = config_apply boxes swapped desk in
    (answer ≡ (
      if not (swapped.serial == desk.current_serial)
      then cancelled
      else if not (config_is_valid swapped desk.screens)
      then failed
      else succeeded))
    × Answered boxes swapped desk (w', answer)
    × ((config_test boxes swapped desk).1 ≡ desk)
    × ((config_test boxes swapped desk).2 ≡ answer)
    × (config_apply boxes c' w' ≡ (c', w', already_used))
config_apply-Answered_example =
    config_apply-Answered boxes swapped desk swapped_fresh swapped_distinct

swap_moves : places (config_apply boxes swapped desk).1.screens ≢ places desk.screens
unfolding config_add_head config_head_get request_on handle_request config_use config_finish
    config_is_valid all_supported all_named move_all move_screen output_management_update stays
    move_in swc_screen_set_position screen_update_usable_geometry total_usable
swap_moves e = ground (arith, e)

config_apply-cancels_example :
    let w' = (config_apply boxes swapped desk).1 in
    ((config_use boxes false swapped w').1 ≡ w')
    × ((config_use boxes false swapped w').2 ≡ cancelled)
config_apply-cancels_example =
    config_apply-cancels boxes swapped swapped false desk (omega arith) swapped_short swapped_fresh
      swapped_fresh swapped_serial swap_moves
