-- ===== src/XdgShell/States.antt =====
-- libswc/xdg_shell.c: the calls of a toplevel as steps, and proofs about its states.
use neoswc.Prelude.{ℕ, ◌≡◌, Bool, true, false, not, ◌&&◌, ◌||◌, List, [], ◌∷◌, if◌then◌else◌}
use neoswc.Window.{Mode, is_tiled, is_fullscreen}
use neoswc.XdgShell.{
  State, maximized_state, fullscreen_state, activated_state, Toplevel, has_state, configure, focus,
  unfocus, close, set_mode, ack_configure, leave_fullscreen,
}

abbrev pub once : List State → Bool
once [] = true
once (c ∷ cs) = not (has_state c cs) && once cs

-- What window.c and the compositor call, and the client's acknowledgement
pub data Call : Type 0 where
  configured : ℕ → ℕ → Call
  focused unfocused closed : Call
  mode_set : Mode → Call
  acknowledged_with : ℕ → Call
  fullscreen_left : Mode → Call

unfoldable pub step : Toplevel → Call → Toplevel
step t (configured w h) = configure t w h
step t focused = focus true t
step t unfocused = unfocus t
step t closed = close t
step t (mode_set m) = set_mode true t m
step t (acknowledged_with serial) = ack_configure t serial
step t (fullscreen_left prev) = leave_fullscreen t prev

abbrev pub active_after : Bool → Call → Bool
active_after active focused = true
active_after active unfocused = false
active_after active _ = active

-- The states are exactly those that are said to be there, each once.
pub record Agrees (states : List State) (tiling full active : Bool) : Type 0 where
  pub distinct : once states ≡ true
  pub maximized : has_state maximized_state states ≡ tiling
  pub fullscreened : has_state fullscreen_state states ≡ full
  pub activated : has_state activated_state states ≡ active

-- What the client was not told of: it still has the state of fullscreen, or it lacks that of a tiled
-- window.
pub record Untold : Type 0 where
  pub kept : Bool
  pub lost : Bool

-- Who leaves fullscreen without `set_mode` keeps its state, and is not told that it is tiled again. The
-- next `set_mode` tells what is tiled; only one out of fullscreen takes the state of fullscreen away.
abbrev pub untold_after : Toplevel → Untold → Call → Untold
untold_after t u (mode_set m) = record { kept = u.kept && not (is_fullscreen t.mode); lost = false }
untold_after t u (fullscreen_left prev) =
    if is_fullscreen t.mode then record { kept = true; lost = is_tiled prev } else u
untold_after t u _ = u

abbrev pub Told : Toplevel → Bool → Untold → Type 0
Told t active u =
    Agrees t.states (is_tiled t.mode && not u.lost) (is_fullscreen t.mode || u.kept) active
