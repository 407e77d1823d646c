-- ===== src/OutputManagement.antt =====
-- libswc/output_management.c: the managers of outputs, and the configurations that move screens.
-- A screen is known by its number, which no other screen has. `sent` is the log, newest first, of what the clients are told;
-- objects of the clients are numbers that libwayland gives.
pub mod Heads
pub mod Requests
pub mod Apply
pub mod Stale
mod Tests
use neoswc.Prelude.{
  ℕ, ◌+◌, ◌%◌, Bool, true, false, not, ◌&&◌, ◌||◌, Option, none, some, List, [], ◌∷◌, ◌==◌,
  if◌then◌else◌,
}
use neoswc.Prelude.Int.{ℤ, eqb_ℤ}
use neoswc.Window.{Rectangle}
use neoswc.Screen.{Pixman, Screen, swc_screen_set_position}

-- `struct output_head`; the modes stand with it.
pub record Head : Type 0 where
  pub object : ℕ
  pub screen : ℕ
  pub modes : List ℕ

-- `struct output_manager`
pub record Manager : Type 0 where
  pub object : ℕ
  pub heads : List Head

-- `struct output_config_head`
pub record ConfigHead : Type 0 where
  pub screen : ℕ
  pub disabled : Bool
  pub position_set : Bool
  pub x : ℤ
  pub y : ℤ
  pub unsupported : Bool

-- `struct output_configuration`
pub record Configuration : Type 0 where
  pub serial : ℕ
  pub heads : List ConfigHead
  pub used : Bool

-- A mode of an output, as the client is told of it
pub record Mode : Type 0 where
  pub width : ℕ
  pub height : ℕ
  pub refresh : ℕ
  pub preferred : Bool

-- An output: its name, the size of the panel, its modes
pub record Output : Type 0 where
  pub name : ℕ
  pub physical_width : ℕ
  pub physical_height : ℕ
  pub modes : List Mode

pub data Message : Type 0 where
  head_sent name_sent description_sent mode_sent current_mode_sent : ℕ → ℕ → Message
  physical_size_sent mode_size_sent : ℕ → ℕ → ℕ → Message
  refresh_sent : ℕ → ℕ → Message
  preferred_sent enabled_sent transform_sent scale_sent identity_sent : ℕ → Message
  position_sent : ℕ → ℤ → ℤ → Message
  done_sent : ℕ → ℕ → Message
  finished_sent : ℕ → Message

-- `swc.screens`, the managers and the serial
pub record World : Type 0 where
  pub screens : List Screen
  pub managers : List Manager
  pub current_serial : ℕ
  pub sent : List Message

-- The geometry of the screen that a head stands for
unfoldable pub screen_geometry : ℕ → List Screen → Option Rectangle
screen_geometry n [] = none
screen_geometry n (s ∷ ss) = if s.number == n then some s.geometry else screen_geometry n ss

abbrev pub position_message : ℕ → Option Rectangle → List Message → List Message
position_message object none sent = sent
position_message object (some g) sent = position_sent object g.x g.y ∷ sent

-- The loops of `output_management_update`
unfoldable pub send_positions : List Screen → List Head → List Message → List Message
send_positions ss [] sent = sent
send_positions ss (h ∷ hs) sent =
    send_positions ss hs (position_message h.object (screen_geometry h.screen ss) sent)

unfoldable pub send_updates : List Screen → ℕ → List Manager → List Message → List Message
send_updates ss serial [] sent = sent
send_updates ss serial (m ∷ ms) sent =
    send_updates ss serial ms (done_sent m.object serial ∷ send_positions ss m.heads sent)

-- `output_management_update`
unfoldable pub output_management_update : World → World
output_management_update w =
    let serial = (w.current_serial + 1) % 4294967296 in
    record w { current_serial = serial; sent = send_updates w.screens serial w.managers w.sent }

-- Whether `swc_screen_set_position` of the screen with the number returns at once
unfoldable pub stays : ℕ → ℤ → ℤ → List Screen → Bool
stays n x y [] = true
stays n x y (s ∷ ss) =
    (not (s.number == n) || (eqb_ℤ s.geometry.x x && eqb_ℤ s.geometry.y y)) && stays n x y ss

module _ {R : Type 0} (pixman : Pixman R) where
  -- The screens once the one with the number is moved
  unfoldable pub move_in : ℕ → ℤ → ℤ → List Screen → List Screen
  move_in n x y [] = []
  move_in n x y (s ∷ ss) =
      (if s.number == n then swc_screen_set_position pixman s x y else s) ∷ move_in n x y ss

  -- `swc_screen_set_position` of one of the screens, with the update at its end
  unfoldable pub move_screen : World → ℕ → ℤ → ℤ → World
  move_screen w n x y =
      if stays n x y w.screens
      then w
      else output_management_update (record w { screens = move_in n x y w.screens })
