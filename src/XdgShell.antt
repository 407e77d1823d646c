-- ===== src/XdgShell.antt =====
-- libswc/xdg_shell.c: toplevels with their configure events, and the place of popups.
-- `sent` is the log, newest first, of what the client is told.
pub mod Positioner
pub mod Anchored
pub mod States
pub mod Acknowledged
mod Tests
use neoswc.Prelude.{
  ℕ, suc, ◌%◌, Bool, true, false, not, ◌&&◌, Option, none, some, List, [], ◌∷◌, ◌++◌, ◌==◌,
  if◌then◌else◌,
}
use neoswc.Prelude.Int.{ℤ, pos, negsuc, ltb_ℤ}
use neoswc.Prelude.Machine.{to_i32}
use neoswc.Window.{is_fullscreen, Mode, stacked, tiled, fullscreen}

-- The states of `enum xdg_toplevel_state` that are used
pub data State : Type 0 where
  maximized_state fullscreen_state activated_state : State

pub data Message : Type 0 where
  toplevel_configure : ℤ → ℤ → List State → Message
  surface_configure : ℕ → Message
  close_sent : Message

-- `struct xdg_toplevel` with its xdg_surface, and the parts of `struct window` that are used.
-- `acknowledged` is what window_ack_configure sets.
pub record Toplevel : Type 0 where
  pub states : List State
  pub mode : Mode
  pub view_width : ℕ
  pub view_height : ℕ
  pub configure_width : ℕ
  pub configure_height : ℕ
  pub acknowledged : Bool
  pub configure_serial : ℕ
  pub last_serial : ℕ
  pub sent : List Message

abbrev pub same_state : State → State → Bool
same_state maximized_state maximized_state = true
same_state fullscreen_state fullscreen_state = true
same_state activated_state activated_state = true
same_state _ _ = false

unfoldable pub has_state : State → List State → Bool
has_state s [] = false
has_state s (c ∷ cs) = if same_state c s then true else has_state s cs

-- `array_remove` of the first state that is equal
unfoldable pub drop_state : State → List State → List State
drop_state s [] = []
drop_state s (c ∷ cs) = if same_state c s then cs else c ∷ drop_state s cs

-- `add_state` and `remove_state`, whose answers are not looked at
unfoldable pub add_state : Bool → State → List State → List State
add_state allocated s states =
    if has_state s states then states else if not allocated then states else states ++ (s ∷ [])

unfoldable pub remove_state : State → List State → List State
remove_state s states = if has_state s states then drop_state s states else states

-- `send_configure`: the toplevel, and the serial
unfoldable pub send_configure : Toplevel → ℤ → ℤ → Toplevel × ℕ
send_configure t width height =
    let serial = suc t.last_serial % 4294967296 in
    let w = if ltb_ℤ width (pos 0) then to_i32 t.configure_width else width in
    let h = if ltb_ℤ height (pos 0) then to_i32 t.configure_height else height in
    (
      record t {
        last_serial = serial;
        sent = surface_configure serial ∷ toplevel_configure w h t.states ∷ t.sent;
      },
      serial,
    )

-- `configure`
unfoldable pub configure : Toplevel → ℕ → ℕ → Toplevel
configure t width height =
    let (t', serial) =
      send_configure (record t { acknowledged = false }) (to_i32 width) (to_i32 height) in
    record t' { configure_serial = serial }

-- The size that a change of focus sends: that of the view, or -1 for none
abbrev pub known_size : ℕ → ℤ
known_size n = if n == 0 then negsuc 0 else to_i32 n

-- `focus` and `unfocus`
unfoldable pub focus : Bool → Toplevel → Toplevel
focus allocated t =
    (send_configure (record t { states = add_state allocated activated_state t.states })
      (known_size t.view_width) (known_size t.view_height)).0

unfoldable pub unfocus : Toplevel → Toplevel
unfocus t =
    (send_configure (record t { states = remove_state activated_state t.states })
      (known_size t.view_width) (known_size t.view_height)).0

-- `close_`
unfoldable pub close : Toplevel → Toplevel
close t = record t { sent = close_sent ∷ t.sent }

-- The two switches of `set_mode`
unfoldable pub leave_mode : Mode → List State → List State
leave_mode stacked states = states
leave_mode tiled states = remove_state maximized_state states
leave_mode fullscreen states = remove_state fullscreen_state states

unfoldable pub enter_mode : Bool → Mode → List State → List State
enter_mode allocated stacked states = states
enter_mode allocated tiled states = add_state allocated maximized_state states
enter_mode allocated fullscreen states = add_state allocated fullscreen_state states

-- `set_mode`, behind which window.c sets the window's mode
unfoldable pub set_mode : Bool → Toplevel → Mode → Toplevel
set_mode allocated t mode =
    let states' = enter_mode allocated mode (leave_mode t.mode t.states) in
    record (send_configure (record t { states = states' }) (negsuc 0) (negsuc 0)).0 { mode = mode }

-- The way out of fullscreen in `swc_window_set_fullscreen`, which sets the mode alone; `prev` is the
-- mode that the window had before.
unfoldable pub leave_fullscreen : Toplevel → Mode → Toplevel
leave_fullscreen t prev = if is_fullscreen t.mode then record t { mode = prev } else t

-- `ack_configure` of a surface whose role is a toplevel
unfoldable pub ack_configure : Toplevel → ℕ → Toplevel
ack_configure t serial =
    if serial == t.configure_serial then record t { acknowledged = true } else t
