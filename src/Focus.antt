-- ===== src/Focus.antt =====
-- libswc/input.c: which of the clients' input objects have the focus.
-- A view is known by a number and by its client, an input object of a client by a number. The
-- handler's `enter` and `leave` are what is sent, a log with the newest message first.
pub mod Invariant
mod Tests
use neoswc.Prelude.{
  ℕ, Bool, true, false, not, ◌&&◌, Option, none, some, List, [], ◌∷◌, ◌++◌, ◌==◌, if◌then◌else◌,
}

-- A `wl_resource` of `wl_keyboard` or `wl_pointer`
pub record Resource : Type 0 where
  pub id : ℕ
  pub client : ℕ

-- A `struct compositor_view`, with the client of its surface
pub record View : Type 0 where
  pub id : ℕ
  pub client : ℕ

-- `handler->enter` and `handler->leave` for one object. `view` may be NULL in both.
pub data Message : Type 0 where
  enter leave : ℕ → Option View → Message

-- `struct input_focus`
pub record InputFocus : Type 0 where
  pub client : Option ℕ
  pub view : Option View
  pub active : List Resource
  pub inactive : List Resource
  pub sent : List Message

abbrev pub is_client : Option ℕ → ℕ → Bool
is_client none c = false
is_client (some d) c = d == c

abbrev pub same_view : Option View → Option View → Bool
same_view none none = true
same_view (some v) (some w) = v.id == w.id
same_view _ _ = false

-- One call of `enter` or `leave`, which goes through a list of objects.
unfoldable pub send_each : (ℕ → Message) → List Resource → List Message → List Message
send_each m [] sent = sent
send_each m (r ∷ rs) sent = send_each m rs (m r.id ∷ sent)

-- The loop of `focus`: the client's objects go to the front of the active ones, one by one.
unfoldable pub activate : ℕ → List Resource → List Resource → List Resource × List Resource
activate c [] active = ([], active)
activate c (r ∷ rs) active =
    let (rest, more) = activate c rs (if r.client == c then r ∷ active else active) in
    ((if r.client == c then rest else r ∷ rest), more)

-- `focus`
unfoldable pub focus : InputFocus → Option View → InputFocus
focus f none = record f {
  client = none;
  view = none;
  sent = send_each (λ i. enter i none) f.active f.sent;
}
focus f (some v) =
    let (inactive', active') = activate v.client f.inactive f.active in
    record {
      client = some v.client;
      view = some v;
      active = active';
      inactive = inactive';
      sent = send_each (λ i. enter i (some v)) active' f.sent;
    }

-- `unfocus`
unfoldable pub unfocus : InputFocus → InputFocus
unfocus f = record f {
  active = [];
  inactive = f.active ++ f.inactive;
  sent = send_each (λ i. leave i f.view) f.active f.sent;
}

abbrev pub is_view : Option View → Bool
is_view none = false
is_view (some v) = true

-- `handle_focus_view_destroy`
unfoldable pub handle_focus_view_destroy : InputFocus → InputFocus
handle_focus_view_destroy f = record (if is_view f.view then unfocus f else f) {
  client = none;
  view = none;
}

-- `input_focus_initialize`
unfoldable pub input_focus_initialize : InputFocus
input_focus_initialize = record {
  client = none;
  view = none;
  active = [];
  inactive = [];
  sent = [];
}

-- `input_focus_add_resource`
unfoldable pub input_focus_add_resource : InputFocus → Resource → InputFocus
input_focus_add_resource f r =
    if is_client f.client r.client
    then record f { active = r ∷ f.active; sent = enter r.id f.view ∷ f.sent }
    else record f { inactive = r ∷ f.inactive }

unfoldable pub drop_resource : ℕ → List Resource → List Resource
drop_resource i [] = []
drop_resource i (r ∷ rs) = let rest = drop_resource i rs in if r.id == i then rest else r ∷ rest

-- `input_focus_remove_resource`: the object is unlinked from the list that it is in.
unfoldable pub input_focus_remove_resource : InputFocus → ℕ → InputFocus
input_focus_remove_resource f i = record f {
  active = drop_resource i f.active;
  inactive = drop_resource i f.inactive;
}

-- `input_focus_set`, less the event for the compositor
unfoldable pub input_focus_set : InputFocus → Option View → InputFocus
input_focus_set f v = if same_view v f.view then f else focus (unfocus f) v

-- What happens to a focus. The view that is destroyed is the focused one.
pub data Op : Type 0 where
  add_op : Resource → Op
  remove_op : ℕ → Op
  set_op : Option View → Op
  view_destroyed_op : Op

unfoldable pub step : InputFocus → Op → InputFocus
step f (add_op r) = input_focus_add_resource f r
step f (remove_op i) = input_focus_remove_resource f i
step f (set_op v) = input_focus_set f v
step f view_destroyed_op = handle_focus_view_destroy f
