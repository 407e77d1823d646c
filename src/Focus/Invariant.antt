-- ===== src/Focus/Invariant.antt =====
-- libswc/input.c: the focused client's objects are active, and enter and leave alternate.
use neoswc.Prelude.{
  ℕ, ◌≡◌, refl, Bool, true, false, not, ◌&&◌, ◌||◌, Option, none, some, List, [], ◌∷◌, ◌++◌, arith,
  ◌==◌, if◌then◌else◌, if_ind, subst,
}
use neoswc.Focus.{
  Resource, View, Message, enter, leave, InputFocus, is_client, same_view, send_each, activate,
  focus, unfocus, is_view, handle_focus_view_destroy, input_focus_add_resource, drop_resource,
  input_focus_remove_resource, input_focus_set, Op, add_op, remove_op, set_op, view_destroyed_op,
  step,
}

-- Whether the last message to an object says that it has the focus
unfoldable pub entered : ℕ → List Message → Bool
entered i [] = false
entered i (enter j v ∷ ms) = if j == i then true else entered i ms
entered i (leave j v ∷ ms) = if j == i then false else entered i ms

abbrev pub has : ℕ → List Resource → Bool
has i [] = false
has i (r ∷ rs) = if r.id == i then true else has i rs

-- Every object of the list is the client's, or none is.
abbrev pub AllOf : Option ℕ → List Resource → Type 0
AllOf c [] = Unit {0}
AllOf c (r ∷ rs) = (is_client c r.client ≡ true) × AllOf c rs

abbrev pub NoneOf : Option ℕ → List Resource → Type 0
NoneOf c [] = Unit {0}
NoneOf c (r ∷ rs) = (is_client c r.client ≡ false) × NoneOf c rs

abbrev pub client_of : Option View → Option ℕ
client_of none = none
client_of (some v) = some v.client

-- What holds of a focus between two calls
pub record Inv (f : InputFocus) : Type 0 where
  pub owner : f.client ≡ client_of f.view
  pub active_own : AllOf f.client f.active
  pub inactive_foreign : NoneOf f.client f.inactive
  pub active_entered : (i : ℕ) → has i f.active ≡ true → entered i f.sent ≡ true
  pub others_left :
      (i : ℕ) → has i f.active ≡ false → has i f.inactive ≡ true → entered i f.sent ≡ false

entered-send_enter :
    (v : Option View) (i : ℕ) (rs : List Resource) (sent : List Message)
    → entered i (send_each (λ j. enter j v) rs sent) ≡ (has i rs || entered i sent)
unfolding entered send_each
entered-send_enter v i [] sent = refl
entered-send_enter v i (r ∷ rs) sent =
    ground (arith, entered-send_enter v i rs (enter r.id v ∷ sent))

entered-send_leave :
    (v : Option View) (i : ℕ) (rs : List Resource) (sent : List Message)
    → entered i (send_each (λ j. leave j v) rs sent) ≡ (not (has i rs) && entered i sent)
unfolding entered send_each
entered-send_leave v i [] sent = refl
entered-send_leave v i (r ∷ rs) sent =
    ground (arith, entered-send_leave v i rs (leave r.id v ∷ sent))

has-append : (i : ℕ) (xs ys : List Resource) → has i (xs ++ ys) ≡ (has i xs || has i ys)
has-append i [] ys = refl
has-append i (x ∷ xs) ys = ground (arith, has-append i xs ys)

has-drop : (i j : ℕ) (rs : List Resource) → has j (drop_resource i rs) ≡ (not (i == j) && has j rs)
unfolding drop_resource
has-drop i j [] = ground arith
has-drop i j (r ∷ rs) = ground (arith, has-drop i j rs)

AllOf-drop : (c : Option ℕ) (i : ℕ) (rs : List Resource) → AllOf c rs → AllOf c (drop_resource i rs)
unfolding drop_resource
AllOf-drop c i [] h = tt
AllOf-drop c i (r ∷ rs) h = ground (arith, AllOf-drop c i rs, h)

NoneOf-drop :
    (c : Option ℕ) (i : ℕ) (rs : List Resource) → NoneOf c rs → NoneOf c (drop_resource i rs)
unfolding drop_resource
NoneOf-drop c i [] h = tt
NoneOf-drop c i (r ∷ rs) h = ground (arith, NoneOf-drop c i rs, h)

has-activate :
    (c i : ℕ) (rs active : List Resource)
    → (has i (activate c rs active).0 || has i (activate c rs active).1)
      ≡ (has i rs || has i active)
unfolding activate
has-activate c i [] active = ground arith
has-activate c i (r ∷ rs) active =
    ground (arith, has-activate c i rs (if r.client == c then r ∷ active else active))

activate-AllOf :
    (c : ℕ) (rs active : List Resource)
    → AllOf (some c) active
    → AllOf (some c) (activate c rs active).1
unfolding activate
activate-AllOf c [] active h = h
activate-AllOf c (r ∷ rs) active h =
    ground (arith, activate-AllOf c rs (if r.client == c then r ∷ active else active), h)

activate-NoneOf : (c : ℕ) (rs active : List Resource) → NoneOf (some c) (activate c rs active).0
unfolding activate
activate-NoneOf c [] active = tt
activate-NoneOf c (r ∷ rs) active =
    ground (arith, activate-NoneOf c rs (if r.client == c then r ∷ active else active))

NoneOf-none : (rs : List Resource) → NoneOf none rs
NoneOf-none [] = tt
NoneOf-none (r ∷ rs) = (refl, NoneOf-none rs)

-- Behind `unfocus` every object that is linked has been left.
unfocus-left :
    (f : InputFocus) (i : ℕ)
    → Inv f
    → has i (unfocus f).inactive ≡ true
    → entered i (unfocus f).sent ≡ false
unfolding unfocus
unfocus-left f i v h = ground (
  arith,
  entered-send_leave f.view i f.active f.sent,
  has-append i f.active f.inactive,
  v.others_left i,
  h,
)

-- A focus that nobody has, with the objects left
cleared-Inv : (f : InputFocus) → Inv f → Inv (record (unfocus f) { client = none; view = none })
unfolding unfocus
cleared-Inv f v = record {
  owner = refl;
  active_own = tt;
  inactive_foreign = NoneOf-none (f.active ++ f.inactive);
  active_entered = λ i h. ground (arith, h);
  others_left = λ i h k. unfocus-left f i v k;
}

focus-Inv : (f : InputFocus) (v : Option View) → Inv f → Inv (focus (unfocus f) v)
unfolding focus unfocus send_each
focus-Inv f none v = cleared-Inv f v
focus-Inv f (some w) v =
    let foreign = f.active ++ f.inactive in
    let moved = activate w.client foreign [] in
    let left = (unfocus f).sent in
    record {
      owner = refl;
      active_own = activate-AllOf w.client foreign [] tt;
      inactive_foreign = activate-NoneOf w.client foreign [];
      active_entered = λ i h. ground (arith, entered-send_enter (some w) i moved.1 left, h);
      others_left = λ i h k. ground (
        arith,
        entered-send_enter (some w) i moved.1 left,
        h,
        k,
        has-activate w.client i foreign [],
        unfocus-left f i v,
      );
    }

-- What the surroundings keep to: a new object is not known yet.
abbrev pub Enabled : InputFocus → Op → Type 0
Enabled f (add_op r) = entered r.id f.sent ≡ false
Enabled f _ = Unit {0}

add-Inv :
    (f : InputFocus) (r : Resource)
    → entered r.id f.sent ≡ false
    → Inv f
    → Inv (input_focus_add_resource f r)
unfolding input_focus_add_resource entered
add-Inv f r fresh v =
    if_ind Inv (is_client f.client r.client)
      (λ own. record {
        owner = v.owner;
        active_own = (own, v.active_own);
        inactive_foreign = v.inactive_foreign;
        active_entered = λ i h. ground (arith, h, v.active_entered i);
        others_left = λ i h k. ground (arith, h, k, v.others_left i);
      })
      λ other. record {
        owner = v.owner;
        active_own = v.active_own;
        inactive_foreign = (other, v.inactive_foreign);
        active_entered = v.active_entered;
        others_left = λ i h k. ground (arith, h, k, fresh, v.others_left i);
      }

remove-Inv : (f : InputFocus) (i : ℕ) → Inv f → Inv (input_focus_remove_resource f i)
unfolding input_focus_remove_resource
remove-Inv f i v = record {
  owner = v.owner;
  active_own = AllOf-drop f.client i f.active v.active_own;
  inactive_foreign = NoneOf-drop f.client i f.inactive v.inactive_foreign;
  active_entered = λ j h. ground (arith, h, has-drop i j f.active, v.active_entered j);
  others_left = λ j h k.
      ground (arith, h, k, has-drop i j f.active, has-drop i j f.inactive, v.others_left j);
}

destroyed-Inv : (f : InputFocus) → Inv f → Inv (handle_focus_view_destroy f)
unfolding handle_focus_view_destroy
destroyed-Inv f v =
    if_ind (λ (g : InputFocus). Inv (record g { client = none; view = none })) (is_view f.view)
      (λ _. cleared-Inv f v)
      λ unseen.
        let unowned : f.client ≡ none = (ground (arith, unseen, v.owner)) in
        record {
          owner = refl;
          active_own = subst (λ c. AllOf c f.active) unowned v.active_own;
          inactive_foreign = NoneOf-none f.inactive;
          active_entered = v.active_entered;
          others_left = v.others_left;
        }

-- Every call keeps this: the focused client's input objects are exactly the active ones, no other
-- client's is among them, the last that an active object was sent is `enter` and the last that any
-- other was sent, if anything, is `leave`. So no client is told that it has the focus while another
-- has it. A new object must not be known yet.
pub step_focus-Inv : (f : InputFocus) (o : Op) → Enabled f o → Inv f → Inv (step f o)
unfolding step input_focus_set
step_focus-Inv f (add_op r) en v = add-Inv f r en v
step_focus-Inv f (remove_op i) en v = remove-Inv f i v
step_focus-Inv f (set_op w) en v = if_ind Inv (same_view w f.view) (λ _. v) λ _. focus-Inv f w v
step_focus-Inv f view_destroyed_op en v = destroyed-Inv f v
