-- ===== src/Cohort.antt =====
-- libswc/window.c: the windows that share a transaction, from their configure to their frame.
-- A window is known by a number, and the state of all of them is a function.
-- A step returns the call of the `done` callback, `some timed_out`, beside the new state.
pub mod Members
pub mod Invariant
pub mod Steps
pub mod Preserve
pub mod Atomic
pub mod Present
pub mod Modes
pub mod Gather
mod Tests
use neoswc.Prelude.{
  ℕ, ◌+◌, ◌%◌, ◌^◌, Bool, true, false, not, ◌&&◌, ◌||◌, Option, none, some, List, [], ◌∷◌, ◌==◌,
  ltb, if◌then◌else◌,
}
use neoswc.Prelude.Int.{ℤ, eqb_ℤ}
use neoswc.Window.{
  Mode, is_tiled, is_fullscreen, Rectangle, Window, clamp_dimension, flush, handle_attach,
  view_attach, surface_hold_render, surface_release_render, committed_size, configured,
  size_settled, present_window, stacked, tiled, fullscreen,
}
use neoswc.Transaction.{
  Transaction, is_some, transaction_create, add, remove, ack, commit, timeout, acked,
}

-- The static variables at the top of window.c.
pub record Cohort : Type 0 where
  pub barrier : Option Transaction
  pub members : List ℕ
  pub parked : List ℕ
  pub initialized : Bool
  pub done_cb : Bool
  pub window : ℕ → Window

abbrev pub Outcome : Type 0
Outcome = Cohort × Option Bool

abbrev pub put : (ℕ → Window) → ℕ → Window → ℕ → Window
put f i w j = if i == j then w else f j

abbrev pub update : Cohort → ℕ → Window → Cohort
update c i w = record c { window = put c.window i w }

-- `wl_list_remove` of a window's link
unfoldable pub drop_id : ℕ → List ℕ → List ℕ
drop_id i [] = []
drop_id i (j ∷ js) = if j == i then js else j ∷ drop_id i js

-- A `wl_list_for_each` that changes each window of the list.
unfoldable pub each : (ℕ → Window → Window) → List ℕ → (ℕ → Window) → ℕ → Window
each g [] f = f
each g (i ∷ is) f = each g is (put f i (g i (f i)))

-- The end of `commit` in surface.c for a commit that attaches a buffer.
unfoldable pub commit_buffer : Cohort → ℕ → ℕ → ℕ → Cohort
commit_buffer c i width height =
    let w = record (c.window i) {
      has_buffer = true;
      buffer_width = width;
      buffer_height = height;
    } in
    update c i (if w.held then record w { held_attach = true } else view_attach w)

-- The loop body of `transaction_done`
abbrev pub park : Transaction → ℕ → Window → Window
park t i w = record w { transaction_acked = acked t i; in_cohort = false }

-- Each window in turn is put in front of those that are parked.
unfoldable pub push_all : List ℕ → List ℕ → List ℕ
push_all [] parked = parked
push_all (i ∷ is) parked = push_all is (i ∷ parked)

-- `transaction_done`
unfoldable pub transaction_done : Cohort → Transaction → Bool → Outcome
transaction_done c t timed_out = (
  record c {
    barrier = none;
    members = [];
    parked = push_all c.members c.parked;
    done_cb = false;
    window = each (park t) c.members c.window;
  },
  (if c.done_cb then some timed_out else none),
)

-- An operation on the transaction, and `transaction_done` if it calls the completion handler.
unfoldable pub settle : Cohort → Transaction × Option Bool → Outcome
settle c (t, none) = (record c { barrier = some t }, none)
settle c (t, some timed_out) = transaction_done c t timed_out

-- `present_cohort`
unfoldable pub present_cohort : Cohort → Cohort
present_cohort c = record c { window = each (λ _. present_window) c.parked c.window; parked = [] }

-- `swc_transaction_begin`; `loop` and `allocated` are as for `transaction_create`.
unfoldable pub transaction_begin : Bool → Bool → Cohort → Cohort × Bool
transaction_begin loop allocated c =
    let c0 = if c.initialized then c else record c { initialized = true; parked = [] } in
    if is_some c0.barrier
    then (c0, false)
    else let c1 = present_cohort c0 in
      elim (transaction_create loop allocated true) [
        | none ↦ (c1, false)
        | some t ↦ (record c1 { barrier = some t; members = [] }, true)
      ]

-- `swc_transaction_present`
unfoldable pub transaction_present : Cohort → Cohort
transaction_present c = if c.initialized then present_cohort c else c

-- `swc_transaction_commit`
unfoldable pub transaction_commit : Bool → Cohort → ℕ → Bool → Outcome
transaction_commit timer_added c ms done = elim c.barrier [
  | none ↦ (c, none)
  | some t ↦ settle (record c { done_cb = done }) (commit timer_added t ms)
]

-- The expiry of the timer
unfoldable pub transaction_expire : Cohort → Outcome
transaction_expire c = elim c.barrier [ none ↦ (c, none) | some t ↦ settle c (timeout t) ]

-- The first half of `join_transaction`, once `transaction_add` has enrolled the window.
abbrev pub enrol : Cohort → ℕ → Transaction → Cohort
enrol c i t = record c {
  barrier = some t;
  members = i ∷ c.members;
  window = put c.window i (surface_hold_render (record (c.window i) { in_cohort = true }));
}

-- `join_transaction`
unfoldable pub join_transaction : Bool → Cohort → ℕ → Bool → Outcome
join_transaction allocated c i awaiting_ack = elim c.barrier [
  | none ↦ (c, none)
  | some t ↦
      if (c.window i).in_cohort
      then (c, none)
      else let (t', enrolled) = add allocated t i (c.window i).serial in
        if not enrolled
        then (c, none)
        else if awaiting_ack
        then (enrol c i t', none)
        else settle (enrol c i t') (ack t' i (c.window i).serial)
]

-- `leave_transaction`
unfoldable pub leave_transaction : Cohort → ℕ → Outcome
leave_transaction c i =
    let c' = record c { members = drop_id i c.members; parked = drop_id i c.parked } in
    if not (c.window i).in_cohort
    then (c', none)
    else let c'' =
        update c' i (surface_release_render (record (c.window i) { in_cohort = false })) in
      elim c.barrier [ none ↦ (c'', none) | some t ↦ settle c'' (remove t i) ]

-- `window_ack_configure`
unfoldable pub window_ack_configure : Cohort → ℕ → Outcome
window_ack_configure c i =
    let c' = update c i (record (c.window i) { acknowledged = true }) in
    if (c.window i).in_cohort
    then elim c.barrier [ none ↦ (c', none) | some t ↦ settle c' (ack t i (c.window i).serial) ]
    else (c', none)

-- `swc_window_set_stacked`
unfoldable pub set_stacked : Cohort → ℕ → Cohort
set_stacked c i =
    let w = if (c.window i).in_cohort then c.window i else flush (c.window i) in
    update c i (record w {
      configure_pending = false;
      configure_width = 0;
      configure_height = 0;
      mode = stacked;
    })

-- `swc_window_set_tiled`, less the end of a pointer interaction
unfoldable pub set_tiled : Cohort → ℕ → Cohort
set_tiled c i = update c i (record (c.window i) { mode = tiled })

-- `swc_window_set_position`
unfoldable pub set_position : Bool → Cohort → ℕ → ℤ → ℤ → Outcome
set_position allocated c i x y =
    let w = c.window i in
    let moved = record w { move_x = x; move_y = y; move_pending = true } in
    if eqb_ℤ x w.geometry.x && eqb_ℤ y w.geometry.y
    then (update c i (record w { move_pending = false }), none)
    else if is_some c.barrier
    then join_transaction allocated (update c i moved) i (w.configure_pending && not w.acknowledged)
    else (update c i (if w.configure_pending then moved else flush moved), none)

-- `swc_window_set_size`
unfoldable pub set_size : Bool → Cohort → ℕ → ℕ → ℕ → Outcome
set_size allocated c i width height =
    let w = c.window i in
    let width' = clamp_dimension width w.min_width w.max_width in
    let height' = clamp_dimension height w.min_height w.max_height in
    let w' = configured w width' height' in
    if size_settled w width' height'
    then (c, none)
    else if is_some c.barrier
    then join_transaction allocated (update c i w') i (not w'.acknowledged)
    else (update c i w', none)

abbrev pub first_call : Option Bool → Option Bool → Option Bool
first_call none d = d
first_call (some b) d = some b

-- `swc_window_set_geometry`
unfoldable pub set_geometry : Bool → Cohort → ℕ → Rectangle → Outcome
set_geometry allocated c i g =
    let (c', called) = set_size allocated c i g.width g.height in
    let (c'', called') = set_position allocated c' i g.x g.y in (c'', first_call called called')

-- `swc_window_set_fullscreen`; the screen is given by its usable geometry, and may be NULL.
unfoldable pub set_fullscreen : Bool → Cohort → ℕ → Option Rectangle → Outcome
set_fullscreen allocated c i screen =
    let w = c.window i in
    if not (is_fullscreen w.mode)
    then elim screen [
      | none ↦ (c, none)
      | some usable ↦
          let saved = record w { prev_geometry = w.geometry; prev_mode = w.mode } in
          let (c', called) = set_geometry allocated (update c i saved) i usable in
          (update c' i (record (c'.window i) { mode = fullscreen }), called)
    ]
    else let (c', called) = set_geometry allocated c i w.prev_geometry in
      (update c' i (record (c'.window i) { mode = w.prev_mode }), called)

-- `view_move` at once, cohort or not, as `move_motion` and `set_window_geometry` call it
unfoldable pub move_view : Cohort → ℕ → ℤ → ℤ → Cohort
move_view c i x y =
    let w = c.window i in update c i (record w { geometry = record (w.geometry) { x = x; y = y } })

-- What can happen to the windows, with the answers of the surroundings.
pub data Call : Type 0 where
  begin_call : Bool → Bool → Call
  present_call : Call
  commit_call : Bool → ℕ → Bool → Call
  expire_call : Call
  ack_call : ℕ → Call
  buffer_call : ℕ → ℕ → ℕ → Call
  stacked_call tiled_call : ℕ → Call
  position_call : Bool → ℕ → ℤ → ℤ → Call
  size_call : Bool → ℕ → ℕ → ℕ → Call
  leave_call : ℕ → Call
  move_call : ℕ → ℤ → ℤ → Call

unfoldable pub step : Cohort → Call → Outcome
step c (begin_call loop allocated) = ((transaction_begin loop allocated c).0, none)
step c present_call = (transaction_present c, none)
step c (commit_call timer_added ms done) = transaction_commit timer_added c ms done
step c expire_call = transaction_expire c
step c (ack_call i) = window_ack_configure c i
step c (buffer_call i width height) = (commit_buffer c i width height, none)
step c (stacked_call i) = (set_stacked c i, none)
step c (tiled_call i) = (set_tiled c i, none)
step c (position_call allocated i x y) = set_position allocated c i x y
step c (size_call allocated i width height) = set_size allocated c i width height
step c (leave_call i) = leave_transaction c i
step c (move_call i x y) = (move_view c i x y, none)
