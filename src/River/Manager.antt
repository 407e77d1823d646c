-- ===== src/River/Manager.antt =====
-- wm/river_wm.c: managers, windows and client objects that come and go.
-- A handler is given the window that the object's user data names; a freed window is not found.
use neoswc.Prelude.{
  ℕ, Bool, true, false, not, ◌||◌, Option, none, some, [], ◌∷◌, ◌++◌, map, ◌==◌, if◌then◌else◌,
}
use neoswc.Prelude.Int.{ℤ, pos}
use neoswc.Transaction.{is_some}
use neoswc.Cohort.{set_tiled}
use neoswc.River.Events.{drop_window_events, closed_sent}
use neoswc.River.State.{idle, RiverWindow, RiverOutput, Wm, find_window, modify, free_window}
use neoswc.River.Sequence.{schedule_sequence}

abbrev pub set_window : ℕ → (RiverWindow → RiverWindow) → Wm → Wm
set_window i g wm = record wm { windows = modify i g wm.windows }

abbrev pub holds : Option ℕ → ℕ → Bool
holds none object = false
holds (some o) object = o == object

-- `maybe_free_window`
unfoldable pub maybe_free_window : ℕ → Wm → Wm
maybe_free_window i wm = elim (find_window i wm.windows) [
  | none ↦ wm
  | some w ↦ if is_some w.swc || is_some w.resource || is_some w.node then wm else record wm {
    windows = free_window i wm.windows;
    pending = drop_window_events i wm.pending;
  }
]

abbrev pub close : RiverWindow → RiverWindow
close w = record w { closed = true; swc = none }

-- `handle_window_destroy`
unfoldable pub handle_window_destroy : Bool → ℕ → Wm → Wm
handle_window_destroy added i wm = elim (find_window i wm.windows) [
  | none ↦ wm
  | some w ↦
      let wm' = set_window i close wm in
      let told =
        if is_some w.resource then record wm' { sent = closed_sent i ∷ wm.sent } else wm' in
      schedule_sequence added (maybe_free_window i told)
]

-- `river_wm_add_window` of window `k` of libswc. The window is new, so showing it is left out.
unfoldable pub river_wm_add_window : Bool → Bool → ℕ → ℕ → Wm → Wm
river_wm_add_window allocated added i k wm =
    if not allocated
    then wm
    else schedule_sequence added (record wm {
      windows =
          wm.windows
          ++ record {
            id = i;
            swc = some k;
            resource = none;
            node = none;
            advertised = false;
            closed = false;
            has_proposal = false;
            proposed_width = pos 0;
            proposed_height = pos 0;
            sent_width = 0;
            sent_height = 0;
          }
            ∷ [];
      cohort = set_tiled wm.cohort k;
    })

-- `window_propose_dimensions`
unfoldable pub window_propose_dimensions : ℕ → ℤ → ℤ → Wm → Wm
window_propose_dimensions i width height wm =
    set_window i
      (λ w.
        if w.closed
        then w
        else record w { has_proposal = true; proposed_width = width; proposed_height = height })
      wm

-- `window_get_node` for an object that could be made
unfoldable pub window_get_node : ℕ → ℕ → Wm → Wm
window_get_node i object wm = set_window i (λ w. record w { node = some object }) wm

-- `window_resource_destroy`
unfoldable pub window_resource_destroy : ℕ → ℕ → Wm → Wm
window_resource_destroy i object wm = elim (find_window i wm.windows) [
  | none ↦ wm
  | some w ↦
      if not (holds w.resource object)
      then wm
      else maybe_free_window i
          (set_window i (λ v. record v { resource = none; advertised = false }) wm)
]

-- `node_resource_destroy`
unfoldable pub node_resource_destroy : ℕ → ℕ → Wm → Wm
node_resource_destroy i object wm = elim (find_window i wm.windows) [
  | none ↦ wm
  | some w ↦
      if not (holds w.node object)
      then wm
      else maybe_free_window i (set_window i (λ v. record v { node = none }) wm)
]

-- The loop bodies of `manager_resource_destroy`; a closed window is not in the list.
abbrev pub forget_window : RiverWindow → RiverWindow
forget_window w =
    if w.closed then w else record w { resource = none; node = none; advertised = false }

abbrev pub forget_output : RiverOutput → RiverOutput
forget_output o = record o { resource = false; advertised = false }

-- `manager_resource_destroy`
unfoldable pub manager_resource_destroy : ℕ → Wm → Wm
manager_resource_destroy object wm = if not (holds wm.manager object) then wm else record wm {
  manager = none;
  phase = idle;
  windows = map forget_window wm.windows;
  outputs = map forget_output wm.outputs;
  seat = none;
}

-- `bind_manager` for an object that could be made; a second manager is told that it is unavailable.
unfoldable pub bind_manager : Bool → ℕ → Wm → Wm
bind_manager added object wm =
    if is_some wm.manager then wm else schedule_sequence added (record wm { manager = some object })
