-- ===== src/Keyboard/Tests.antt =====
-- A keyboard with the handlers of the bindings and of the client, and the theorems at it.
use neoswc.Prelude.{ℕ, ◌+◌, ◌≡◌, refl, ◌==◌, if◌then◌else◌, Bool, true, false, some, [], ◌∷◌}
use neoswc.Bindings.{Binding}
use neoswc.Focus.{Resource, input_focus_initialize, input_focus_add_resource, input_focus_set}
use neoswc.Keyboard.{
  Surroundings, Keyboard, bindings_handler, client_handler, no_modifiers, mask_to_swc, mod_active,
  mod_invalid,
}
use neoswc.Keyboard.Keys.{keyboard_handle_key, keyboard_reset, release_keys}
use neoswc.Keyboard.Held.{Held, keyboard_handle_key-Held, keyboard_reset-clears}
use neoswc.Keyboard.Synced.{Synced, keyboard_handle_key-Synced}

-- The state of xkbcommon is whether the control key, 29, is held; the functions of the bindings
-- count their calls.
abbrev env : Surroundings Bool ℕ
env = record {
  new_state = false;
  state_new = true;
  update_key = λ x key state. if key == 29 then state else x;
  serialize = λ x. record no_modifiers { depressed = if x then 4 else 0 };
  indices = record {
    ctrl = 2;
    alt = 3;
    super = 6;
    shift = 0;
    mod3 = mod_invalid;
    mod5 = mod_invalid;
  };
  keymap = λ _. record { one_sym = λ k. k + 97; level_0 = λ k. some (k + 97) };
  run = λ s _. s + 1;
  key_allocated = true;
  client_key_allocated = true;
}

abbrev quit : Binding
quit = record { value = 113; modifiers = 1; handler = 1 }

abbrev of_terminal : Resource
of_terminal = record { id = 70; client = 7 }

abbrev start : Keyboard Bool ℕ
start = record {
  focus =
      input_focus_set (input_focus_add_resource input_focus_initialize of_terminal)
        (some (record { id = 1; client = 7 }));
  xkb = false;
  keys = [];
  handlers = bindings_handler ∷ client_handler ∷ [];
  client_keys = [];
  modifier_state = no_modifiers;
  modifiers = 0;
  observers = [];
  observers_initialized = false;
  observers_last_modifiers = 0;
  bindings = record { key_bindings = quit ∷ []; button_bindings = []; axis_bindings = [] };
  rest = 0;
  sent = [];
}

start-Held : Held start
start-Held = record { exact = refl; once = refl }

start-Synced : Synced env start
unfolding mask_to_swc mod_active
start-Synced = record { state_kept = refl; mask = refl }

-- Control and a letter, which the client is told of
abbrev typing : Keyboard Bool ℕ
typing = keyboard_handle_key env (keyboard_handle_key env start 29 true) 30 true

typing-Held : Held typing
typing-Held =
    keyboard_handle_key-Held env (keyboard_handle_key env start 29 true) 30 true
      (keyboard_handle_key-Held env start 29 true start-Held)

typing-Synced : Synced env typing
typing-Synced =
    keyboard_handle_key-Synced env (keyboard_handle_key env start 29 true) 30 true
      (keyboard_handle_key-Synced env start 29 true start-Synced)

keyboard_handle_key-Held_example : Held (keyboard_handle_key env typing 29 false)
keyboard_handle_key-Held_example = keyboard_handle_key-Held env typing 29 false typing-Held

keyboard_handle_key-Synced_example : Synced env (keyboard_handle_key env typing 29 false)
keyboard_handle_key-Synced_example = keyboard_handle_key-Synced env typing 29 false typing-Synced

keyboard_reset-clears_example :
    ((release_keys env typing.keys typing).client_keys ≡ [])
    × ((keyboard_reset env typing).0.keys ≡ [])
    × Held (keyboard_reset env typing).0
keyboard_reset-clears_example = keyboard_reset-clears env typing typing-Held
