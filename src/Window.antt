-- ===== src/Window.antt =====
-- libswc/window.c: a window on its own, with the render hold of libswc/surface.c.
-- Of the shells only the answer to `configure` is kept: wl_shell and Xwayland acknowledge at once,
-- xdg-shell later. Of a surface the committed size and the render hold are kept.
use neoswc.Prelude.{
  ℕ, ◌+◌, ◌%◌, ◌^◌, Bool, true, false, not, ◌&&◌, ◌||◌, Option, none, some, ◌==◌, ltb,
  if◌then◌else◌,
}
use neoswc.Prelude.Int.{ℤ}

-- `enum window_mode`
pub data Mode : Type 0 where
  stacked tiled fullscreen : Mode

abbrev pub is_tiled : Mode → Bool
is_tiled tiled = true
is_tiled _ = false

abbrev pub is_fullscreen : Mode → Bool
is_fullscreen fullscreen = true
is_fullscreen _ = false

-- `struct swc_rectangle`
pub record Rectangle : Type 0 where
  pub x : ℤ
  pub y : ℤ
  pub width : ℕ
  pub height : ℕ

-- `struct window` with the parts of its view and surface that the cohort works on.
-- `in_cohort` says whether `window->transaction` is set.
pub record Window : Type 0 where
  pub geometry : Rectangle
  pub mode : Mode
  pub prev_geometry : Rectangle
  pub prev_mode : Mode
  pub min_width : ℕ
  pub min_height : ℕ
  pub max_width : ℕ
  pub max_height : ℕ
  pub move_pending : Bool
  pub move_x : ℤ
  pub move_y : ℤ
  pub configure_pending : Bool
  pub acknowledged : Bool
  pub configure_width : ℕ
  pub configure_height : ℕ
  pub serial : ℕ
  pub acks_in_configure : Bool
  pub in_cohort : Bool
  pub transaction_acked : Bool
  pub held : Bool
  pub held_attach : Bool
  pub has_buffer : Bool
  pub buffer_width : ℕ
  pub buffer_height : ℕ
  pub has_window_geometry : Bool
  pub window_width : ℕ
  pub window_height : ℕ

-- `clamp_dimension`. The `uint32_t` that is passed for the `int32_t` is negative from 2 ^ 31 on.
unfoldable pub clamp_dimension : ℕ → ℕ → ℕ → ℕ
clamp_dimension value least most =
    let v0 = if ltb value (2 ^ 31) then value else 0 in
    let v1 = if not (least == 0) && ltb v0 least then least else v0 in
    let most' = if not (least == 0) && ltb most least then least else most in
    if not (most == 0) && ltb most' v1 then most' else v1

-- `flush`: `impl->move` only tells an X11 client, and `view_move` puts the view there.
unfoldable pub flush : Window → Window
flush w =
    if w.move_pending
    then record w {
      geometry = record {
        x = w.move_x;
        y = w.move_y;
        width = w.geometry.width;
        height = w.geometry.height;
      };
      move_pending = false;
    }
    else w

-- `handle_attach`
unfoldable pub handle_attach : Window → Window
handle_attach w =
    if w.in_cohort
    then w
    else let w' = if w.acknowledged then flush w else w in record w' { configure_pending = false }

-- `view_attach` of the committed buffer: the view takes its size, then `handle_attach` runs.
unfoldable pub view_attach : Window → Window
view_attach w = handle_attach (record w {
  geometry = record {
    x = w.geometry.x;
    y = w.geometry.y;
    width = w.buffer_width;
    height = w.buffer_height;
  };
})

-- `surface_hold_render`
abbrev pub surface_hold_render : Window → Window
surface_hold_render w = record w { held = true }

-- `surface_release_render`
unfoldable pub surface_release_render : Window → Window
surface_release_render w =
    if not w.held
    then w
    else let w' = record w { held = false; held_attach = false } in
      if w.held_attach then view_attach w' else w'

-- The loop body of `present_cohort`
unfoldable pub present_window : Window → Window
present_window w =
    surface_release_render
      (if w.transaction_acked then record (flush w) { configure_pending = false } else w)

-- The window after `impl->configure` and what follows it in `swc_window_set_size`.
abbrev pub configured : Window → ℕ → ℕ → Window
configured w width height =
    let w' = record w { serial = (w.serial + 1) % 2 ^ 32; acknowledged = w.acks_in_configure } in
    if is_tiled w.mode
    then record w' { configure_width = width; configure_height = height; configure_pending = true }
    else w'

-- Whether `swc_window_set_size` has nothing to ask for.
abbrev pub size_settled : Window → ℕ → ℕ → Bool
size_settled w width height =
    (w.configure_pending && (width == w.configure_width) && (height == w.configure_height))
    || (not w.configure_pending && (width == w.geometry.width) && (height == w.geometry.height))

-- `surface_committed_size`; the window geometry is of type int32_t, and 0 by 0 if it is not positive.
unfoldable pub committed_size : Window → Option (ℕ × ℕ)
committed_size w =
    if not w.has_buffer
    then none
    else if w.has_window_geometry && not (w.window_width == 0) && not (w.window_height == 0)
    then some (w.window_width, w.window_height)
    else some (w.buffer_width, w.buffer_height)
