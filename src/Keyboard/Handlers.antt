-- ===== src/Keyboard/Handlers.antt =====
-- libswc/keyboard.c: the handlers, and the observers that share one of them.
use neoswc.Prelude.{
  ℕ, Bool, true, false, not, Option, none, some, List, [], ◌∷◌, ◌++◌, ◌==◌, if◌then◌else◌,
}
use neoswc.Bindings
use neoswc.Bindings.{HandlerCall}
use neoswc.Focus.{Resource}
use neoswc.Keyboard.{
  Handler, bindings_handler, observer_handler, client_handler, ModifierState, Observer, Message,
  key_sent, modifiers_sent, Surroundings, Keyboard,
}

unfoldable pub remove_value : ℕ → List ℕ → List ℕ
remove_value v [] = []
remove_value v (k ∷ ks) = if k == v then ks else k ∷ remove_value v ks

-- The loops over `focus.active`; the log has the newest message first.
unfoldable pub send_keys : ℕ → Bool → List Resource → List Message → List Message
send_keys value state [] sent = sent
send_keys value state (r ∷ rs) sent = send_keys value state rs (key_sent r.id value state ∷ sent)

unfoldable pub send_modifiers : ModifierState → List Resource → List Message → List Message
send_modifiers m [] sent = sent
send_modifiers m (r ∷ rs) sent =
    send_modifiers m rs (modifiers_sent r.id m.depressed m.locked m.latched m.group ∷ sent)

unfoldable pub insert_before_client : List Handler → List Handler
insert_before_client [] = []
insert_before_client (client_handler ∷ hs) = observer_handler ∷ client_handler ∷ hs
insert_before_client (h ∷ hs) = h ∷ insert_before_client hs

module _ {S : Type 0} where
  -- The loop of `observer_handle_key`
  unfoldable pub observe_key : List (Observer S) → S → ℕ → Bool → S × Bool
  observe_key [] s value state = (s, false)
  observe_key (o ∷ os) s value state = elim o.key [
    | none ↦ observe_key os s value state
    | some f ↦
        let (s', taken) = f s value state in
        let others = observe_key os s' value state in if taken then (s', true) else others
  ]

  -- The loop of `observer_handle_modifiers`
  unfoldable pub observe_modifiers : List (Observer S) → S → ℕ → ℕ → S
  observe_modifiers [] s previous current = s
  observe_modifiers (o ∷ os) s previous current =
      observe_modifiers os (elim o.modifiers [ none ↦ s | some f ↦ f s previous current ]) previous
        current

  unfoldable pub run_call : (S → HandlerCall → S) → S → Option HandlerCall → S
  run_call run s none = s
  run_call run s (some c) = run s c

  unfoldable pub drop_observer : ℕ → List (Observer S) → List (Observer S)
  drop_observer i [] = []
  drop_observer i (o ∷ os) = if o.id == i then os else o ∷ drop_observer i os

module _ {X : Type 0} {S : Type 0} where
  -- `client_handle_key`
  unfoldable pub client_handle_key : Bool → Keyboard X S → ℕ → Bool → Keyboard X S × Bool
  client_handle_key allocated k value true = if not allocated then (k, false) else (
    record k {
      client_keys = k.client_keys ++ (value ∷ []);
      sent = send_keys value true k.focus.active k.sent;
    },
    true,
  )
  client_handle_key allocated k value false = (
    record k {
      client_keys = remove_value value k.client_keys;
      sent = send_keys value false k.focus.active k.sent;
    },
    true,
  )

  -- `client_handle_modifiers`, whose answer is not looked at
  unfoldable pub client_handle_modifiers : Keyboard X S → ModifierState → Keyboard X S
  client_handle_modifiers k m = record k { sent = send_modifiers m k.focus.active k.sent }

  -- `observer_handle_key`
  unfoldable pub observer_handle_key : Keyboard X S → ℕ → Bool → Keyboard X S × Bool
  observer_handle_key k value state =
      let (s, taken) = observe_key k.observers k.rest value state in (record k { rest = s }, taken)

  -- `observer_handle_modifiers`
  unfoldable pub observer_handle_modifiers : Keyboard X S → Keyboard X S
  observer_handle_modifiers k = if k.modifiers == k.observers_last_modifiers then k else record k {
    observers_last_modifiers = k.modifiers;
    rest = observe_modifiers k.observers k.rest k.observers_last_modifiers k.modifiers;
  }

  -- `handler->key`: the keyboard, `press.data` and the answer
  unfoldable pub handler_key :
      Surroundings X S → Handler → Keyboard X S → ℕ → ℕ → Bool → Keyboard X S × ℕ × Bool
  handler_key env bindings_handler k value slot state =
      let (slot', called, taken) =
        Bindings.handle_key (env.keymap k.xkb) k.bindings k.modifiers value slot state in
      (record k { rest = run_call env.run k.rest called }, slot', taken)
  handler_key env observer_handler k value slot state =
      let (k', taken) = observer_handle_key k value state in (k', slot, taken)
  handler_key env client_handler k value slot state =
      let (k', taken) = client_handle_key env.client_key_allocated k value state in
      (k', slot, taken)

  -- `handler->modifiers`; the handler of bindings.c has none.
  unfoldable pub handler_modifiers : Handler → ModifierState → Keyboard X S → Keyboard X S
  handler_modifiers bindings_handler m k = k
  handler_modifiers observer_handler m k = observer_handle_modifiers k
  handler_modifiers client_handler m k = client_handle_modifiers k m

  -- `swc_add_keyboard_observer` with a seat and an implementation; 0 or -ENOMEM
  unfoldable pub add_keyboard_observer : Bool → Keyboard X S → Observer S → Keyboard X S × Bool
  add_keyboard_observer allocated k o =
      if not allocated
      then (k, false)
      else if k.observers_initialized
      then (record k { observers = k.observers ++ (o ∷ []) }, true)
      else (
        record k {
          observers = o ∷ [];
          observers_initialized = true;
          observers_last_modifiers = k.modifiers;
          handlers = insert_before_client k.handlers;
        },
        true,
      )

  -- `swc_remove_keyboard_observer`
  unfoldable pub remove_keyboard_observer : Keyboard X S → ℕ → Keyboard X S
  remove_keyboard_observer k i =
      if not k.observers_initialized
      then k
      else record k { observers = drop_observer i k.observers }
