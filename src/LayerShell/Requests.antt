-- ===== src/LayerShell/Requests.antt =====
-- libswc/layer_shell.c: the requests of a client, the commit, the buffer and the size.
use neoswc.Prelude.{
  ℕ, suc, ◌%◌, Bool, true, false, not, ◌&&◌, ◌||◌, Option, none, some, [], ◌∷◌, ◌==◌, ltb,
  if◌then◌else◌,
}
use neoswc.Prelude.Int.{ℤ, pos, ◌+ℤ◌, ◌-ℤ◌}
use neoswc.Prelude.Machine.{to_i32, quot}
use neoswc.Window.{Rectangle}
use neoswc.LayerShell.{
  Margin, LayerState, LayerSurface, Call, configure_sent, stack_layer_set, view_shown, view_hidden,
  keyboard_focused, usable_geometry_updated, modifier_removed, view_destroyed, anchor_top,
  anchor_bottom, anchor_left, anchor_right, has_anchor, state_equal, configure_size,
}

abbrev pub log : Call → LayerSurface → LayerSurface
log c s = record s { calls = c ∷ s.calls }

-- The switch of `restack_layer`: `enum compositor_stack_layer`
abbrev pub stack_layer : ℕ → ℕ
stack_layer layer =
    if layer == 0
    then 0
    else if layer == 1
    then 1
    else if layer == 2
    then 3
    else if layer == 3
    then 4
    else 2

-- `restack_layer`
unfoldable pub restack_layer : LayerSurface → LayerSurface
restack_layer s =
    let layer = s.current.layer in
    log (stack_layer_set (stack_layer layer))
      (record s { always_top = (layer == 2) || (layer == 3) })

-- One axis of `update_position`: whether the surface is held at the start and at the end
abbrev place : Bool → Bool → ℤ → ℕ → ℕ → ℤ → ℤ → ℤ
place at_start at_end origin total size start_margin end_margin =
    if at_start && not at_end
    then origin +ℤ start_margin
    else if at_end && not at_start
    then origin +ℤ to_i32 total -ℤ to_i32 size -ℤ end_margin
    else origin +ℤ quot (to_i32 total -ℤ to_i32 size +ℤ start_margin -ℤ end_margin) 2

-- `update_position`
unfoldable pub update_position : LayerSurface → LayerSurface
update_position s =
    let at = has_anchor s.current.anchor in
    let m = s.current.margin in
    record s {
      view = record s.view {
        x =
            place (at anchor_left) (at anchor_right) s.screen.x s.screen.width s.view.width m.left
              m.right;
        y =
            place (at anchor_top) (at anchor_bottom) s.screen.y s.screen.height s.view.height m.top
              m.bottom;
      };
    }

-- `send_configure`
unfoldable pub send_configure : LayerSurface → LayerSurface
send_configure s =
    let c = s.current in
    let serial = suc s.last_serial % 4294967296 in
    log
      (configure_sent serial
        (configure_size c.desired_width c.anchor anchor_left anchor_right s.screen.width
          c.margin.left c.margin.right)
        (configure_size c.desired_height c.anchor anchor_top anchor_bottom s.screen.height
          c.margin.top c.margin.bottom))
      (record s { configure_serial = serial; last_serial = serial })

-- `set_size`, `set_anchor`, `set_exclusive_zone`, `set_margin`, `set_keyboard_interactivity`,
-- `set_layer` and `set_exclusive_edge`
pub data Request : Type 0 where
  set_size : ℕ → ℕ → Request
  set_anchor : ℕ → Request
  set_exclusive_zone : ℤ → Request
  set_margin : Margin → Request
  set_keyboard_interactivity : ℕ → Request
  set_layer : ℕ → Request
  set_exclusive_edge : ℕ → Request
  ack_configure : ℕ → Request

abbrev with_pending : LayerState → LayerSurface → LayerSurface
with_pending p s = record s { pending = p }

-- What a request does to the surface, and whether it is answered with the error `invalid_layer`
unfoldable pub handle_request : LayerSurface → Request → LayerSurface × Bool
handle_request s (set_size w h) =
    (with_pending (record s.pending { desired_width = w; desired_height = h }) s, false)
handle_request s (set_anchor a) = (with_pending (record s.pending { anchor = a }) s, false)
handle_request s (set_exclusive_zone z) =
    (with_pending (record s.pending { exclusive_zone = z }) s, false)
handle_request s (set_margin m) = (with_pending (record s.pending { margin = m }) s, false)
handle_request s (set_keyboard_interactivity k) =
    (with_pending (record s.pending { keyboard_interactivity = k }) s, false)
handle_request s (set_layer l) =
    if ltb 3 l then (s, true) else (with_pending (record s.pending { layer = l }) s, false)
handle_request s (set_exclusive_edge e) =
    (with_pending (record s.pending { exclusive_edge = e }) s, false)
handle_request s (ack_configure serial) =
    (if serial == s.configure_serial then update_position s else s, false)

-- `handle_attach`, once the view has the buffer
unfoldable pub handle_attach : LayerSurface → LayerSurface
handle_attach s =
    let placed = restack_layer (update_position s) in
    let shown = log view_shown placed in
    let focused =
      if not (s.current.keyboard_interactivity == 0) then log keyboard_focused shown else shown in
    let s' =
      if s.has_buffer
      then if not s.mapped then focused else placed
      else if s.mapped
      then log view_hidden s
      else s in
    log usable_geometry_updated (record s' { mapped = s.has_buffer })

-- `handle_resize`
unfoldable pub handle_resize : LayerSurface → LayerSurface
handle_resize s = log usable_geometry_updated (update_position s)

-- `handle_surface_commit`
unfoldable pub handle_surface_commit : LayerSurface → LayerSurface
handle_surface_commit s =
    let state_changed = not (state_equal s.current s.pending) in
    let s' =
      if state_changed
      then log usable_geometry_updated (restack_layer (record s { current = s.pending }))
      else s in
    if not s'.configured || state_changed
    then record (send_configure s') { configured = true }
    else s'

-- `destroy_layer_surface`, which the end of the surface leads to as well, before the memory is freed
unfoldable pub destroy_layer_surface : LayerSurface → LayerSurface
destroy_layer_surface s = log usable_geometry_updated (log view_destroyed (log modifier_removed s))

abbrev initial_state : ℕ → LayerState
initial_state layer = record {
  layer = layer;
  anchor = 0;
  exclusive_zone = pos 0;
  exclusive_edge = 0;
  keyboard_interactivity = 0;
  margin = record { top = pos 0; right = pos 0; bottom = pos 0; left = pos 0 };
  desired_width = 0;
  desired_height = 0;
}

-- `layer_surface_new` when nothing fails, for a view at `view`
unfoldable pub layer_surface_new : Rectangle → Rectangle → ℕ → ℕ → LayerSurface
layer_surface_new view screen layer last_serial = restack_layer (record {
  view = view;
  has_buffer = false;
  always_top = false;
  screen = screen;
  current = initial_state layer;
  pending = initial_state layer;
  configure_serial = 0;
  configured = false;
  mapped = false;
  last_serial = last_serial;
  calls = [];
})

pub data Answer : Type 0 where
  invalid_layer role already_constructed no_memory : Answer
  created : LayerSurface → Answer

abbrev choose_screen : Option (Option Rectangle) → Option Rectangle → Option Rectangle
choose_screen none first = first
choose_screen (some screen) first = screen

-- `get_layer_surface`: whether the surface has a role and a buffer, the screen of the output if one
-- is named, the first screen, whether everything can be made, and the view
unfoldable pub get_layer_surface :
    Bool → Bool → Option (Option Rectangle) → Option Rectangle → Bool → Rectangle → ℕ → ℕ → Answer
get_layer_surface has_role has_buffer output first allocated view layer last_serial =
    if ltb 3 layer
    then invalid_layer
    else if has_role
    then role
    else if has_buffer
    then already_constructed
    else elim (choose_screen output first) [
      | none ↦ no_memory
      | some screen ↦
          if allocated then created (layer_surface_new view screen layer last_serial) else no_memory
    ]
