-- ===== src/LayerShell/Tests.antt =====
-- A bar at the top of a screen, and the theorems at it.
use neoswc.Prelude.{suc, ◌&&◌, ◌%◌, if◌then◌else◌, ◌≡◌, refl, none, some, false, true}
use neoswc.Prelude.Int.{pos, negsuc, ◌-ℤ◌, ◌+ℤ◌}
use neoswc.Prelude.Machine.{to_i32, to_u32, quot}
use neoswc.Window.{Rectangle}
use neoswc.LayerShell.{LayerSurface, state_equal, configure_size, available_size, shrink}
use neoswc.LayerShell.Requests.{
  get_layer_surface, invalid_layer, set_size, set_anchor, set_exclusive_zone, ack_configure,
  handle_request, handle_surface_commit, layer_surface_new, restack_layer, send_configure,
  update_position,
}
use neoswc.LayerShell.Configure.{commit_calls, handle_surface_commit-once}

abbrev monitor : Rectangle
monitor = record { x = pos 0; y = pos 0; width = 1920; height = 1080 }

abbrev nowhere : Rectangle
nowhere = record { x = pos 0; y = pos 0; width = 0; height = 0 }

-- Anchored to the left, the right and the top, 30 high
abbrev bar : LayerSurface
bar =
    (handle_request
      (handle_request (handle_request (layer_surface_new nowhere monitor 2 5) (set_size 0 30)).0
        (set_anchor 13)).0
      (set_exclusive_zone (pos 30))).0

bar_configured : (handle_surface_commit bar).configure_serial ≡ 6
unfolding layer_surface_new restack_layer handle_request handle_surface_commit state_equal
    send_configure configure_size available_size
bar_configured = refl

handle_surface_commit-once_example :
    ((handle_surface_commit bar).current ≡ bar.pending)
    × ((handle_surface_commit bar).configured ≡ true)
    × ((handle_surface_commit bar).calls ≡ commit_calls bar)
    × ((handle_surface_commit bar).configure_serial ≡ (
        if state_equal bar.current bar.pending && bar.configured
        then bar.configure_serial
        else suc bar.last_serial % 4294967296))
    × (handle_surface_commit (handle_surface_commit bar) ≡ handle_surface_commit bar)
handle_surface_commit-once_example = handle_surface_commit-once bar

-- On a screen whose bottom edge is at 0, a strip at the bottom is not kept free: the difference
-- wraps around, and the minimum is the edge itself.
above :
    (shrink (record { x = pos 0; y = negsuc 1079; width = 1920; height = 1080 }) 2 (pos 30)).y2
    ≡ pos 0
unfolding shrink to_i32 to_u32
above = refl

-- A surface that is held at no edge is put in the middle.
centred :
    (handle_request
      (record bar {
        current = (handle_surface_commit bar).pending;
        view = record monitor { width = 100 };
      })
      (ack_configure 0)).0.view.x
    ≡ pos 910
unfolding layer_surface_new restack_layer handle_request handle_surface_commit state_equal
    send_configure configure_size available_size update_position quot to_i32 ◌-ℤ◌ ◌+ℤ◌
centred = refl

-- No layer beyond the overlay is accepted.
no_such_layer : get_layer_surface false false none (some monitor) true nowhere 4 5 ≡ invalid_layer
unfolding get_layer_surface
no_such_layer = refl
