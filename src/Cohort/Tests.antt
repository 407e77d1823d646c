-- ===== src/Cohort/Tests.antt =====
-- Runs of the cohort, and its theorems at concrete windows.
use neoswc.Prelude.{ℕ, ◌≡◌, refl, ◌⊎◌, true, false, none, some, [], arith, ◌≤◌}
use neoswc.Prelude.Int.{pos}
use neoswc.Transaction.{create, add, ack, commit, finish, find, mark, transaction_create}
use neoswc.Window.{Mode, Rectangle, Window, clamp_dimension, stacked, tiled}
use neoswc.Cohort.{
  Cohort, begin_call, commit_call, size_call, ack_call, buffer_call, step, set_size,
  transaction_begin, transaction_commit, transaction_present, present_cohort, join_transaction,
  settle, transaction_done, window_ack_configure, each,
}
use neoswc.Cohort.Members.{mem}
use neoswc.Cohort.Invariant.{Inv, Enabled}
use neoswc.Cohort.Preserve.{step_call-Inv}
use neoswc.Cohort.Atomic.{step-member_still}
use neoswc.Cohort.Present.{Landed, transaction_present_lands}
use neoswc.Cohort.Modes.{clamp_dimension_bounds}

abbrev screen : Rectangle
screen = record { x = pos 0; y = pos 0; width = 640; height = 480 }

-- A window of xdg-shell, which acknowledges later.
abbrev plain : Mode → Window
plain m = record {
  geometry = screen;
  mode = m;
  prev_geometry = screen;
  prev_mode = stacked;
  min_width = 0;
  min_height = 0;
  max_width = 0;
  max_height = 0;
  move_pending = false;
  move_x = pos 0;
  move_y = pos 0;
  configure_pending = false;
  acknowledged = false;
  configure_width = 0;
  configure_height = 0;
  serial = 0;
  acks_in_configure = false;
  in_cohort = false;
  transaction_acked = false;
  held = false;
  held_attach = false;
  has_buffer = false;
  buffer_width = 0;
  buffer_height = 0;
  has_window_geometry = false;
  window_width = 0;
  window_height = 0;
}

abbrev start : Mode → Cohort
start m = record {
  barrier = none;
  members = [];
  parked = [];
  initialized = false;
  done_cb = false;
  window = λ _. plain m;
}

start-Inv : (m : Mode) → Inv (start m)
start-Inv m = ground arith

-- A cohort that window 1 has joined.
abbrev opened : Cohort
opened = (step (start tiled) (begin_call true true)).0

abbrev joined : Cohort
joined = (step opened (size_call true 1 300 200)).0

opened-Inv : Inv opened
opened-Inv = step_call-Inv (start tiled) (begin_call true true) tt (start-Inv tiled)

room : Enabled opened (size_call true 1 300 200)
unfolding step transaction_begin transaction_create create present_cohort each
room = omega arith

joined-Inv : Inv joined
joined-Inv = step_call-Inv opened (size_call true 1 300 200) room opened-Inv

joined_holds : ((joined.window 1).in_cohort ≡ true) × ((joined.window 1).held ≡ true)
unfolding step transaction_begin transaction_create create present_cohort each set_size
    join_transaction add clamp_dimension find
joined_holds = (refl, refl)

abbrev waiting : Cohort
waiting = (step joined (commit_call true 100 true)).0

waiting-Inv : Inv waiting
waiting-Inv = step_call-Inv joined (commit_call true 100 true) tt joined-Inv

step_call-Inv_example : Inv (step joined (commit_call true 100 true)).0
step_call-Inv_example = step_call-Inv joined (commit_call true 100 true) tt joined-Inv

step-member_still_example :
    ((step joined (buffer_call 1 300 200)).0.window 1).geometry ≡ (joined.window 1).geometry
step-member_still_example =
    step-member_still joined (buffer_call 1 300 200) 1 joined-Inv joined_holds.0 refl

abbrev parked : Cohort
parked = (step waiting (ack_call 1)).0

parked-Inv : Inv parked
parked-Inv = step_call-Inv waiting (ack_call 1) tt waiting-Inv

transaction_present_lands_example :
    let c' = transaction_present parked in
    (mem 1 parked.parked ≡ true
      → (parked.window 1).transaction_acked ≡ true
      → Landed (parked.window 1) (c'.window 1))
    × ((c'.window 1).held ≡ true → mem 1 c'.members ≡ true)
transaction_present_lands_example = transaction_present_lands parked 1 parked-Inv

-- The acknowledgement of the only member ends the cohort, in time.
ends : (step waiting (ack_call 1)).1 ≡ some false
unfolding step transaction_begin transaction_create create present_cohort each set_size
    join_transaction add clamp_dimension find transaction_commit commit settle window_ack_configure
    ack finish mark transaction_done
ends = refl

abbrev most : ℕ
most = 800

clamp_dimension_bounds_example :
    let r = clamp_dimension 900 100 most in
    (100 ≤ r)
    × ((most ≡ 0) ⊎ (r ≤ most) ⊎ (r ≤ 100))
    × (100 ≤ 900 → (most ≡ 0) ⊎ (900 ≤ most) → r ≡ 900)
clamp_dimension_bounds_example = clamp_dimension_bounds 900 100 most (omega arith)

abbrev usable : Rectangle
usable = record { x = pos 0; y = pos 24; width = 1920; height = 1056 }
