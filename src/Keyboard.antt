-- ===== src/Keyboard.antt =====
-- libswc/keyboard.c: the keys that are held, and the handlers that they are offered to.
-- The three handlers are those of bindings.c, of the observers and of the focused client. What
-- xkbcommon answers is a parameter, and so is what the observers and the functions of the bindings
-- do to the rest of the compositor, `rest`; they do not call back into the keyboard. Serials and
-- times are left out.
pub mod Handlers
pub mod Keys
pub mod Values
pub mod Held
pub mod Synced
mod Tests
use Prim.Native.Nat.{bit_and, bit_or}
use neoswc.Prelude.{
  ℕ, ◌^◌, Bool, true, false, not, ◌&&◌, Option, none, some, List, ◌==◌, if◌then◌else◌,
}
use neoswc.Bindings.{Bindings, Keymap, HandlerCall}
use neoswc.Focus.{InputFocus}

-- `struct keyboard_handler`, by whose it is
pub data Handler : Type 0 where
  bindings_handler observer_handler client_handler : Handler

-- `struct key`; `slot` is `press.data`.
pub record Key : Type 0 where
  pub value : ℕ
  pub slot : ℕ
  pub handler : Option Handler

-- `struct keyboard_modifier_state`
pub record ModifierState : Type 0 where
  pub depressed : ℕ
  pub latched : ℕ
  pub locked : ℕ
  pub group : ℕ

-- `xkb->indices`
pub record Indices : Type 0 where
  pub ctrl : ℕ
  pub alt : ℕ
  pub super : ℕ
  pub shift : ℕ
  pub mod3 : ℕ
  pub mod5 : ℕ

-- `struct keyboard_observer`, either of whose functions may be NULL. `id` stands for the pair of
-- pointers that it was registered with.
pub record Observer (S : Type 0) : Type 0 where
  pub id : ℕ
  pub key : Option (S → ℕ → Bool → S × Bool)
  pub modifiers : Option (S → ℕ → ℕ → S)

-- What is sent to the clients' keyboard objects, with the arguments in the order of the calls
pub data Message : Type 0 where
  key_sent : ℕ → ℕ → Bool → Message
  modifiers_sent : ℕ → ℕ → ℕ → ℕ → ℕ → Message

-- xkbcommon on a keymap, the functions of the bindings, and the answers of the allocator
pub record Surroundings (X : Type 0) (S : Type 0) : Type 0 where
  pub new_state : X
  pub state_new : Bool
  pub update_key : X → ℕ → Bool → X
  pub serialize : X → ModifierState
  pub indices : Indices
  pub keymap : X → Keymap
  pub run : S → HandlerCall → S
  pub key_allocated : Bool
  pub client_key_allocated : Bool

-- `struct keyboard` with the observers and the bindings
pub record Keyboard (X : Type 0) (S : Type 0) : Type 0 where
  pub focus : InputFocus
  pub xkb : X
  pub keys : List Key
  pub handlers : List Handler
  pub client_keys : List ℕ
  pub modifier_state : ModifierState
  pub modifiers : ℕ
  pub observers : List (Observer S)
  pub observers_initialized : Bool
  pub observers_last_modifiers : ℕ
  pub bindings : Bindings
  pub rest : S
  pub sent : List Message

-- `XKB_MOD_INVALID`
abbrev pub mod_invalid : ℕ
mod_invalid = 4294967295

-- `mod_active`
unfoldable pub mod_active : ℕ → ℕ → Bool
mod_active mods_active index =
    not (index == mod_invalid) && not (bit_and mods_active (2 ^ index) == 0)

abbrev pub add_if : Bool → ℕ → ℕ → ℕ
add_if b bit result = if b then bit_or result bit else result

-- `mask_to_swc`: ctrl 1, alt 2, logo 4, shift 8, mod3 16, mod5 32
unfoldable pub mask_to_swc : Indices → ℕ → ℕ
mask_to_swc i mask = add_if (mod_active mask i.mod5) 32 (
    add_if (mod_active mask i.mod3) 16 (
      add_if (mod_active mask i.shift) 8 (
        add_if (mod_active mask i.super) 4
          (add_if (mod_active mask i.alt) 2 (add_if (mod_active mask i.ctrl) 1 0)))))

abbrev pub same_state : ModifierState → ModifierState → Bool
same_state a b =
    (a.depressed == b.depressed)
    && (a.latched == b.latched)
    && (a.locked == b.locked)
    && (a.group == b.group)

abbrev pub no_modifiers : ModifierState
no_modifiers = record { depressed = 0; latched = 0; locked = 0; group = 0 }
