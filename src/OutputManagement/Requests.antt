-- ===== src/OutputManagement/Requests.antt =====
-- libswc/output_management.c: a configuration, from its creation to its application.
use neoswc.Prelude.{
  ℕ, Bool, true, false, not, ◌&&◌, ◌||◌, Option, none, some, List, [], ◌∷◌, ◌==◌, if◌then◌else◌,
}
use neoswc.Prelude.Int.{ℤ}
use neoswc.Screen.{Pixman, Screen}
use neoswc.OutputManagement.{ConfigHead, Configuration, Mode, World, move_screen}

-- `config_head_get`
unfoldable pub config_head_get : List ConfigHead → ℕ → Option ConfigHead
config_head_get [] n = none
config_head_get (ch ∷ chs) n = if ch.screen == n then some ch else config_head_get chs n

-- The requests of a configuration head. The mode is none if its object is gone; of a transform and a
-- scale it is said whether they are the ones in use, of adaptive sync whether it is disabled.
pub data Request : Type 0 where
  set_mode : Option Mode → Request
  set_custom_mode : Request
  set_position : ℤ → ℤ → Request
  set_transform set_scale set_adaptive_sync : Bool → Request

abbrev same_size : Mode → Option Mode → Bool
same_size current none = false
same_size current (some m) = (m.width == current.width) && (m.height == current.height)

abbrev mark_unless : Bool → ConfigHead → ConfigHead
mark_unless supported ch = if supported then ch else record ch { unsupported = true }

-- What a request does to its head; `current` is the mode of the screen.
unfoldable pub handle_request : Mode → ConfigHead → Request → ConfigHead
handle_request current ch (set_mode m) = mark_unless (same_size current m) ch
handle_request current ch set_custom_mode = record ch { unsupported = true }
handle_request current ch (set_position x y) = record ch { position_set = true; x = x; y = y }
handle_request current ch (set_transform normal) = mark_unless normal ch
handle_request current ch (set_scale one) = mark_unless one ch
handle_request current ch (set_adaptive_sync off) = mark_unless off ch

-- The head of the screen, changed by a request; none if its object is gone
unfoldable pub request_on : Mode → ℕ → Request → List ConfigHead → List ConfigHead
request_on current n r [] = []
request_on current n r (ch ∷ chs) =
    if ch.screen == n then handle_request current ch r ∷ chs else ch ∷ request_on current n r chs

pub data Added : Type 0 where
  added head_gone already_configured no_memory : Added

-- `config_add_head` for a head, if it is still there, of a screen; `allocated` is for all memory.
unfoldable pub config_add_head : Configuration → Option ℕ → Bool → Bool → Configuration × Added
config_add_head c none disabled allocated = (c, head_gone)
config_add_head c (some n) disabled allocated = elim (config_head_get c.heads n) [
  | some _ ↦ (c, already_configured)
  | none ↦ if not allocated then (c, no_memory) else (
    record c {
      heads =
          record {
            screen = n;
            disabled = disabled;
            position_set = false;
            x = ℤ.pos 0;
            y = ℤ.pos 0;
            unsupported = false;
          }
          ∷ c.heads;
    },
    added,
  )
]

-- `config_enable_head` and `config_disable_head`
abbrev pub config_enable_head : Configuration → Option ℕ → Bool → Configuration × Added
config_enable_head c head allocated = config_add_head c head false allocated

abbrev pub config_disable_head : Configuration → Option ℕ → Bool → Configuration × Added
config_disable_head c head allocated = config_add_head c head true allocated

-- The loops of `config_is_valid`
unfoldable pub all_supported : List ConfigHead → Bool
all_supported [] = true
all_supported (ch ∷ chs) = if ch.disabled || ch.unsupported then false else all_supported chs

unfoldable pub all_named : List ConfigHead → List Screen → Bool
all_named heads [] = true
all_named heads (s ∷ ss) = elim (config_head_get heads s.number) [
  | none ↦ false
  | some _ ↦ all_named heads ss
]

-- `config_is_valid`
unfoldable pub config_is_valid : Configuration → List Screen → Bool
config_is_valid c screens = if not (all_supported c.heads) then false else all_named c.heads screens

pub data Answer : Type 0 where
  cancelled failed succeeded already_used : Answer

module _ {R : Type 0} (pixman : Pixman R) where
  -- The loop of `config_finish`
  unfoldable pub move_all : List ConfigHead → World → World
  move_all [] w = w
  move_all (ch ∷ chs) w =
      move_all chs (if ch.position_set then move_screen pixman w ch.screen ch.x ch.y else w)

  -- `config_finish`
  unfoldable pub config_finish : Configuration → Bool → World → World × Answer
  config_finish c apply w =
      if not (c.serial == w.current_serial)
      then (w, cancelled)
      else if not (config_is_valid c w.screens)
      then (w, failed)
      else (if apply then move_all c.heads w else w, succeeded)

  -- `config_apply` and `config_test`
  unfoldable pub config_use : Bool → Configuration → World → Configuration × World × Answer
  config_use apply c w =
      if c.used
      then (c, w, already_used)
      else let (w', answer) = config_finish c apply w in (record c { used = true }, w', answer)

  abbrev pub config_apply : Configuration → World → Configuration × World × Answer
  config_apply = config_use true

  abbrev pub config_test : Configuration → World → Configuration × World × Answer
  config_test = config_use false

-- `manager_create_configuration` for an object that could be made
abbrev pub manager_create_configuration : ℕ → Configuration
manager_create_configuration serial = record { serial = serial; heads = []; used = false }
