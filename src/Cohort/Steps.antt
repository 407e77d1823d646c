-- ===== src/Cohort/Steps.antt =====
-- Every call keeps the invariant of the cohort.
use neoswc.Prelude.{
  ℕ, ◌≡◌, refl, Bool, true, false, not, Option, none, some, List, [], ◌∷◌, arith, suc, ◌<◌, ◌^◌,
  length, if◌then◌else◌, if_ind, option_ind, sym, ◌∙◌, ap, subst, ◌&&◌,
}
use neoswc.Prelude.Int.{ℤ, eqb_ℤ}
use neoswc.Transaction
use neoswc.Transaction.{
  Participant, Transaction, find, unlink, mark, acked, transaction_create, create, add, remove, ack,
  commit, timeout, finish, Op, add_op, remove_op, ack_op, commit_op, timeout_op, is_some,
}
use neoswc.Transaction.Invariant
use neoswc.Transaction.Invariant.{is_armed, create-Inv}
use neoswc.Window.{Window, flush, view_attach, configured, clamp_dimension, size_settled}
use neoswc.Cohort.{
  Cohort, Outcome, update, present_cohort, transaction_begin, transaction_commit,
  transaction_expire, join_transaction, enrol, window_ack_configure, commit_buffer, set_stacked,
  set_tiled, set_position, set_size, move_view,
}
use neoswc.Cohort.Members.{mem, keys, flush_kept, view_attach_kept, each-present}
use neoswc.Cohort.Invariant.{
  Barrier, Inv, Kept, update-Inv, Room, Armed, waiting, commit_settles, expire_settles, ack_settles,
  started,
}

abbrev pub InvAfter : Outcome → Type 0
InvAfter o = Inv o.0

Barrier-unparked : (b : Option Transaction) (is js : List ℕ) → Barrier b is js → Barrier b is []
Barrier-unparked none is js h = h
Barrier-unparked (some t) is js h = (h.0, refl)

-- Nobody is a member and awaits present.
pub unparked_members :
    (b : Option Transaction) (is js : List ℕ) (i : ℕ)
    → Barrier b is js
    → mem i is ≡ true
    → mem i js ≡ false
unparked_members none is js i h m = ground (arith, h)
unparked_members (some t) is js i h m = ground (arith, h.1)

pub present_cohort-Inv : (c : Cohort) → Inv c → Inv (present_cohort c)
unfolding present_cohort
present_cohort-Inv c v = record {
  barrier = Barrier-unparked c.barrier c.members c.parked v.barrier;
  enrolled = λ i. ground (arith, each-present i c.parked c.window, v.enrolled i);
  frozen = λ i. ground (arith, each-present i c.parked c.window, v.frozen i);
  members_held = λ i h. ground (
    arith,
    each-present i c.parked c.window,
    v.members_held i h,
    unparked_members c.barrier c.members c.parked i v.barrier,
  );
  fresh = λ h. ground (arith, v.fresh);
}

create_open :
    (c : Cohort) (t : Transaction)
    → c.initialized ≡ true
    → c.barrier ≡ none
    → c.parked ≡ []
    → t ≡ create true
    → Inv c
    → Inv (record c { barrier = some t; members = [] })
unfolding create
create_open c t st e ps new v = record {
  barrier = (
    record {
      sound = subst Invariant.Inv (sym new) (create-Inv true);
      going = ap (λ (u : Transaction). u.complete) new;
      handled = ap (λ (u : Transaction). u.handler) new;
      enrolled_keys = ap (λ (u : Transaction). keys u.participants) new;
    },
    ps,
  );
  enrolled = λ i. ground (arith, v.enrolled i, no_members);
  frozen = λ i h. ground (arith, v.frozen i h, no_members, ps);
  members_held = λ i. ground arith;
  fresh = λ h. ground (arith, st);
}
  where
    no_members : c.members ≡ []
    no_members = subst (λ b. Barrier b c.members c.parked) e v.barrier

created :
    (loop allocated : Bool) (t : Transaction)
    → transaction_create loop allocated true ≡ some t
    → t ≡ create true
unfolding transaction_create
created loop allocated t e = ground arith

initialize-Inv :
    (c : Cohort)
    → Inv c
    → Inv (if c.initialized then c else record c { initialized = true; parked = [] })
initialize-Inv c v =
    if_ind Inv c.initialized (λ st. v)
      λ st. record {
        barrier = Barrier-unparked c.barrier c.members c.parked v.barrier;
        enrolled = v.enrolled;
        frozen = λ i h. ground (arith, v.frozen i h, v.fresh st);
        members_held = v.members_held;
        fresh = λ h. ground arith;
      }

pub begin_call-Inv :
    (loop allocated : Bool) (c : Cohort) → Inv c → Inv (transaction_begin loop allocated c).0
unfolding transaction_begin present_cohort
begin_call-Inv loop allocated c v =
    let c0 : Cohort = if c.initialized then c else record c { initialized = true; parked = [] } in
    let v0 : Inv c0 = initialize-Inv c v in
    let v1 : Inv (present_cohort c0) = present_cohort-Inv c0 v0 in
    if_ind (λ (o : Cohort × Bool). Inv o.0) (is_some c0.barrier) (λ e. v0)
      λ e.
        option_ind (λ (o : Cohort × Bool). Inv o.0) (transaction_create loop allocated true)
          (λ failed. v1)
          λ t new.
            create_open (present_cohort c0) t (ground arith) (ground arith) refl
              (created loop allocated t new) v1

pub commit_call-Inv :
    (timer_added : Bool) (c : Cohort) (ms : ℕ) (done : Bool)
    → Inv c
    → Inv (transaction_commit timer_added c ms done).0
unfolding transaction_commit
commit_call-Inv timer_added c ms done v =
    option_ind InvAfter c.barrier (λ e. v) (λ t e. commit_settles v e timer_added done ms)

pub expire_call-Inv : (c : Cohort) → Armed c.barrier → Inv c → Inv (transaction_expire c).0
unfolding transaction_expire
expire_call-Inv c a v =
    option_ind InvAfter c.barrier (λ e. v) (λ t e. expire_settles v e (subst Armed e a))

pub ack_call-Inv : (c : Cohort) (i : ℕ) → Inv c → Inv (window_ack_configure c i).0
unfolding window_ack_configure
ack_call-Inv c i v =
    let w : Window = record (c.window i) { acknowledged = true } in
    let v' = update-Inv c i w (refl, refl) v in
    if_ind InvAfter (c.window i).in_cohort
      (λ member.
        option_ind InvAfter c.barrier (λ e. v')
          (λ t e. ack_settles {c = update c i w} v' e i (c.window i).serial))
      (λ out. v')

pub buffer_call-Inv :
    (c : Cohort) (i width height : ℕ) → Inv c → Inv (commit_buffer c i width height)
unfolding commit_buffer
buffer_call-Inv c i width height v =
    let w : Window = record (c.window i) {
      has_buffer = true;
      buffer_width = width;
      buffer_height = height;
    } in
    update-Inv c i (if w.held then record w { held_attach = true } else view_attach w)
      (if_ind (λ u. Kept (c.window i) u) w.held (λ h. (refl, refl)) (λ h. view_attach_kept w)) v

pub stacked_call-Inv : (c : Cohort) (i : ℕ) → Inv c → Inv (set_stacked c i)
unfolding set_stacked
stacked_call-Inv c i v = update-Inv c i _ (ground (arith, flush_kept (c.window i))) v

pub tiled_call-Inv : (c : Cohort) (i : ℕ) → Inv c → Inv (set_tiled c i)
unfolding set_tiled
tiled_call-Inv c i v = update-Inv c i _ (refl, refl) v

add_enrols :
    (allocated : Bool) (t : Transaction) (i s : ℕ)
    → (add allocated t i s).1 ≡ true
    → ((add allocated t i s).0.committed ≡ false)
      × ((add allocated t i s).0.complete ≡ t.complete)
      × ((add allocated t i s).0.handler ≡ t.handler)
      × (keys (add allocated t i s).0.participants ≡ i ∷ keys t.participants)
unfolding add
add_enrols allocated t i s h = ground arith

module _ {c : Cohort} {t : Transaction} (v : Inv c) (e : c.barrier ≡ some t) where
  enrol-Inv :
      (allocated : Bool) (i s : ℕ)
      → suc (length t.participants) < 2 ^ 64
      → (add allocated t i s).1 ≡ true
      → Inv (enrol c i (add allocated t i s).0)
  unfolding Transaction.step
  enrol-Inv allocated i s room done = record {
    barrier = (
      record {
        sound = Invariant.step_op-Inv t (add_op allocated i s) room (waiting v e).0.sound;
        going = (add_enrols allocated t i s done).1 ∙ (waiting v e).0.going;
        handled = (add_enrols allocated t i s done).2 ∙ (waiting v e).0.handled;
        enrolled_keys =
            (add_enrols allocated t i s done).3 ∙ ap (λ is. i ∷ is) (waiting v e).0.enrolled_keys;
      },
      (waiting v e).1,
    );
    enrolled = λ j. ground (arith, v.enrolled j);
    frozen = λ j h. ground (arith, v.frozen j);
    members_held = λ j h. ground (arith, v.members_held j);
    fresh = λ h. ground (arith, started v e);
  }

join-Inv :
    (allocated : Bool) (c : Cohort) (i : ℕ) (awaiting_ack : Bool)
    → Room c.barrier
    → Inv c
    → InvAfter (join_transaction allocated c i awaiting_ack)
unfolding join_transaction
join-Inv allocated c i awaiting_ack room v =
    option_ind InvAfter c.barrier (λ e. v)
      λ t e.
        if_ind InvAfter (c.window i).in_cohort (λ member. v)
          λ out.
            let s = (c.window i).serial in
            let r = add allocated t i s in
            if_ind InvAfter (not r.1) (λ failed. v)
              λ ok.
                let v' = enrol-Inv v e allocated i s (subst Room e room) (ground arith) in
                if_ind InvAfter awaiting_ack (λ a. v')
                  (λ a. ack_settles {c = enrol c i r.0} v' refl i s)

pub position_call-Inv :
    (allocated : Bool) (c : Cohort) (i : ℕ) (x y : ℤ)
    → Room c.barrier
    → Inv c
    → InvAfter (set_position allocated c i x y)
unfolding set_position
position_call-Inv allocated c i x y room v =
    let w : Window = c.window i in
    let moved : Window = record w { move_x = x; move_y = y; move_pending = true } in
    if_ind InvAfter (eqb_ℤ x w.geometry.x && eqb_ℤ y w.geometry.y)
      (λ same. update-Inv c i _ (refl, refl) v)
      λ other.
        if_ind InvAfter (is_some c.barrier)
          (λ inside.
            join-Inv allocated (update c i moved) i (w.configure_pending && not w.acknowledged) room
              (update-Inv c i moved (refl, refl) v))
          (λ alone.
            update-Inv c i (if w.configure_pending then moved else flush moved)
              (ground (arith, flush_kept moved)) v)

pub size_call-Inv :
    (allocated : Bool) (c : Cohort) (i width height : ℕ)
    → Room c.barrier
    → Inv c
    → InvAfter (set_size allocated c i width height)
unfolding set_size
size_call-Inv allocated c i width height room v =
    let w : Window = c.window i in
    let width' : ℕ = clamp_dimension width w.min_width w.max_width in
    let height' : ℕ = clamp_dimension height w.min_height w.max_height in
    let w' : Window = configured w width' height' in
    let v' : Inv (update c i w') = update-Inv c i w' (ground arith) v in
    if_ind InvAfter (size_settled w width' height') (λ same. v)
      λ other.
        if_ind InvAfter (is_some c.barrier)
          (λ inside. join-Inv allocated (update c i w') i (not w'.acknowledged) room v')
          (λ alone. v')

pub move_call-Inv : (c : Cohort) (i : ℕ) (x y : ℤ) → Inv c → Inv (move_view c i x y)
unfolding move_view
move_call-Inv c i x y v =
    let w = c.window i in
    update-Inv c i (record w { geometry = record (w.geometry) { x = x; y = y } }) (refl, refl) v
