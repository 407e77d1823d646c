-- ===== src/River/Tests.antt =====
-- A manager with one window, and the theorems at concrete states of it.
use neoswc.Prelude.{map, ◌≡◌, refl, true, false, none, some, [], ◌∷◌, ◌++◌, arith, ◌+◌}
use neoswc.Prelude.Int.{pos}
use neoswc.Window.{Rectangle, Window, stacked, tiled}
use neoswc.Cohort.{Cohort}
use neoswc.River.Events.{find_binding, Binding, manage_start, render_start, pressed, released}
use neoswc.River.State.{find_window, Phase, idle, manage, settle, render, RiverWindow, Wm, Env}
use neoswc.River.Sequence.{begin_render, begin_manage, manager_manage_finish}
use neoswc.River.Keys.{
  binding_unregister, Layout, and_not, held_by, find_match, binding_matches, observe_press,
  observe_release,
}
use neoswc.River.Steps.{step, render_finish, window_gone}
use neoswc.River.Awake.{Awake, step-Awake}
use neoswc.River.Lifetime.{Live, for_window, for_binding, there, bound}
use neoswc.River.Lifetime.Steps.{step-Live}
use neoswc.River.News.{rev_onto, deliveries, news}
use neoswc.River.Reports.{
  changes, AllUpToDate, begin_render-reports, AllAnnounced, begin_manage-delivers,
}
use neoswc.Cohort.{ack_call, expire_call, buffer_call}
use neoswc.River.Stuck.{Stuck, afterwards, none_begins, manage_finish-Stuck}
use neoswc.River.Settle.{Settles, manage_finish-Settles}
use neoswc.River.Routing.{Keeps, press-release, distinct}

abbrev screen : Rectangle
screen = record { x = pos 0; y = pos 0; width = 640; height = 480 }

abbrev shown : Window
shown = record {
  geometry = screen;
  mode = tiled;
  prev_geometry = screen;
  prev_mode = stacked;
  min_width = 0;
  min_height = 0;
  max_width = 0;
  max_height = 0;
  move_pending = false;
  move_x = pos 0;
  move_y = pos 0;
  configure_pending = false;
  acknowledged = false;
  configure_width = 0;
  configure_height = 0;
  serial = 0;
  acks_in_configure = false;
  in_cohort = false;
  transaction_acked = false;
  held = false;
  held_attach = false;
  has_buffer = true;
  buffer_width = 640;
  buffer_height = 480;
  has_window_geometry = false;
  window_width = 0;
  window_height = 0;
}

abbrev cohort : Cohort
cohort = record {
  barrier = none;
  members = [];
  parked = [];
  initialized = false;
  done_cb = false;
  window = λ _. shown;
}

-- Window 4 stands for the window 1 of libswc, and the manager has proposed it a new size.
abbrev proposed : RiverWindow
proposed = record {
  id = 4;
  swc = some 1;
  resource = some 9;
  node = none;
  advertised = true;
  closed = false;
  has_proposal = true;
  proposed_width = pos 300;
  proposed_height = pos 200;
  sent_width = 0;
  sent_height = 0;
}

-- A binding of keysym 113 with the logo key.
abbrev quit : Binding
quit = record {
  id = 6;
  resource = true;
  version = 2;
  is_button = false;
  keysym = 113;
  modifiers = 4;
  registered = false;
  enabled = true;
  layout_override = none;
  held = false;
  held_keycode = 0;
}

abbrev managed : Phase → Wm
managed p = record {
  manager = some 1;
  idle_pending = false;
  phase = p;
  dirty = false;
  windows = proposed ∷ [];
  outputs = [];
  seat = none;
  xkb_seat = none;
  bindings = quit ∷ [];
  pending = pressed 6 ∷ [];
  pointer = none;
  eat_next_key = false;
  watched_modifiers = 0;
  cohort = cohort;
  sent = [];
}

abbrev env : Env
env = record {
  window_object = λ i. some (i + 100);
  output_object = λ _. true;
  seat_object = true;
  idle_added = true;
  loop = true;
  allocated = true;
  joined = λ _. true;
  timer_added = true;
  version = 4;
  cursor = some (pos 2560, pos 512);
  fixed_to_int = λ z. z;
}

abbrev us : Layout
us = record {
  keysym = λ k. k + 97;
  keysym_in_layout = λ k _. k + 97;
  layout = λ _. 0;
  active = 4;
  consumed_modifiers = λ _. 0;
}

managed-Awake : (p : Phase) → Awake (managed p)
unfolding Awake
managed-Awake p h = ground (arith, h)

managed-Live : (p : Phase) → Live (managed p)
unfolding for_window for_binding there bound find_binding find_window
managed-Live p = record {
  windows_live = λ i h. ground (arith, h);
  bindings_live = λ i h. ground (arith, h);
}

quit_found : find_match us 16 (and_not 4 0) (quit ∷ []) ≡ some quit
unfolding find_match binding_matches
quit_found = refl

step-Awake_example : Awake (step env (managed render) render_finish)
step-Awake_example = step-Awake env (managed render) render_finish (managed-Awake render)

step-Live_example : Live (step env (managed idle) (window_gone 4 9))
step-Live_example = step-Live env (managed idle) (window_gone 4 9) refl (managed-Live idle)

begin_render-reports_example :
    let wm = managed settle in
    let wm' = begin_render wm in
    (wm'.phase ≡ render)
    × (wm'.sent ≡ render_start ∷ rev_onto (changes wm.cohort wm.windows) wm.sent)
    × AllUpToDate wm.cohort wm'.windows
begin_render-reports_example = begin_render-reports (managed settle) refl

begin_manage-delivers_example :
    let wm = managed idle in
    let wm' = begin_manage env wm in
    (wm'.phase ≡ manage)
    × (wm'.dirty ≡ false)
    × (wm'.pending ≡ [])
    × (wm'.sent
        ≡ manage_start ∷ rev_onto (news env wm wm'.seat ++ deliveries wm' wm.pending) wm.sent)
    × AllAnnounced env wm'.windows
begin_manage-delivers_example = begin_manage-delivers env (managed idle) refl refl

manage_finish-Settles_example : Settles (manager_manage_finish env (managed manage))
manage_finish-Settles_example =
    manage_finish-Settles env (managed manage) refl refl refl refl refl refl

-- The binding is disabled, and the queue flushed, before the key is released.
abbrev disabled_wm : Wm
disabled_wm = record (observe_press true true us 16 (managed idle)).0 {
  bindings = map binding_unregister (observe_press true true us 16 (managed idle)).0.bindings;
  pending = [];
}

unregister-Keeps : (b : Binding) → Keeps b (binding_unregister b)
unfolding binding_unregister
unregister-Keeps b = ground arith

press-release_example :
    let r = observe_release true true 16 disabled_wm in
    (r.1 ≡ true)
    × (r.0.pending ≡ disabled_wm.pending ++ (released 6 ∷ []))
    × (held_by 16 r.0.bindings ≡ none)
unfolding distinct held_by find_binding
press-release_example =
    press-release us 16 (managed idle) quit binding_unregister disabled_wm refl refl quit_found
      unregister-Keeps refl

-- No memory for the transaction
abbrev poor : Env
poor = record env { allocated = false }

manage_finish-Stuck_example : Stuck (
    afterwards poor
      (manager_manage_finish poor (managed manage))
      (ack_call 1 ∷ expire_call ∷ buffer_call 1 300 200 ∷ []))
unfolding none_begins
manage_finish-Stuck_example =
    manage_finish-Stuck poor (managed manage)
      (ack_call 1 ∷ expire_call ∷ buffer_call 1 300 200 ∷ []) refl refl refl refl
