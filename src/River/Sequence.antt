-- ===== src/River/Sequence.antt =====
-- wm/river_wm.c: the manage and render sequences, and the lifetime of the manager and its windows.
use neoswc.Prelude.{
  ℕ, Bool, true, false, not, ◌&&◌, ◌||◌, Option, none, some, List, [], ◌∷◌, ◌++◌, ◌==◌, ltb,
  if◌then◌else◌,
}
use neoswc.Prelude.Int.{ℤ, pos_part, eqb_ℤ}
use neoswc.Transaction.{is_some}
use neoswc.Window.{Window, committed_size}
use neoswc.Cohort.{
  Cohort, Outcome, transaction_begin, transaction_present, transaction_commit, set_geometry,
}
use neoswc.River.Events.{
  Message, flush_binding_events, manage_start, render_start, sequence_error, seat_sent, output_sent,
  window_sent, dimensions_hint, dimensions, pointer_position,
}
use neoswc.River.State.{
  idle, manage, settle, render, is_idle, is_manage, is_render, RiverWindow, RiverOutput, Wm, Env,
  receivers,
}

-- `schedule_sequence`
unfoldable pub schedule_sequence : Bool → Wm → Wm
schedule_sequence added wm =
    if not (is_some wm.manager) || not (is_idle wm.phase) || wm.idle_pending
    then record wm { dirty = true }
    else record wm { dirty = true; idle_pending = added }

-- `advertise_output`, less the `wl_output` and the geometry that follow
unfoldable pub advertise_output : Env → RiverOutput → RiverOutput × List Message
advertise_output env o =
    if o.advertised
    then (o, [])
    else if env.output_object o.id
    then (record o { resource = true; advertised = true }, output_sent o.id ∷ [])
    else (record o { resource = false }, [])

unfoldable pub advertise_outputs :
    Env → List RiverOutput → List Message → List RiverOutput × List Message
advertise_outputs env [] sent = ([], sent)
advertise_outputs env (o ∷ os) sent =
    let (o', ms) = advertise_output env o in
    let (os', sent') = advertise_outputs env os (ms ++ sent) in (o' ∷ os', sent')

-- `advertise_seat`, less the name of the `wl_seat`
unfoldable pub advertise_seat : Env → Option ℕ → Option ℕ × List Message
advertise_seat env (some v) = (some v, [])
advertise_seat env none = if env.seat_object then (some env.version, seat_sent ∷ []) else (none, [])

-- `advertise_window` for a window that swc still has, less its title and application id
unfoldable pub advertise : Env → Window → RiverWindow → RiverWindow × List Message
advertise env v w = if w.advertised then (w, []) else elim (env.window_object w.id) [
  | none ↦ (record w { resource = none }, [])
  | some object ↦ (
    record w {
      resource = some object;
      advertised = true;
      sent_width = v.geometry.width;
      sent_height = v.geometry.height;
    },
    dimensions w.id v.geometry.width v.geometry.height
        ∷ dimensions_hint w.id v.min_width v.min_height v.max_width v.max_height
        ∷ window_sent w.id
        ∷ [],
  )
]

-- The loop body of `begin_manage`
unfoldable pub advertise_window : Env → Cohort → RiverWindow → RiverWindow × List Message
advertise_window env c w = elim w.swc [
  | none ↦ (w, [])
  | some k ↦ let (w', ms) = advertise env (c.window k) w in (record w' { has_proposal = false }, ms)
]

unfoldable pub each_window :
    (RiverWindow → RiverWindow × List Message)
    → List RiverWindow
    → List Message
    → List RiverWindow × List Message
each_window g [] sent = ([], sent)
each_window g (w ∷ ws) sent =
    let (w', ms) = if w.closed then (w, []) else g w in
    let (ws', sent') = each_window g ws (ms ++ sent) in (w' ∷ ws', sent')

-- Whether `send_pointer_position` has sent this position.
abbrev pub sent_already : Option (ℤ × ℤ) → ℤ → ℤ → Bool
sent_already none x y = false
sent_already (some (a, b)) x y = eqb_ℤ x a && eqb_ℤ y b

-- `send_pointer_position`
unfoldable pub send_pointer_position : Env → Wm → Wm
send_pointer_position env wm = elim wm.seat [
  | none ↦ wm
  | some v ↦ if ltb v 2 then wm else elim env.cursor [
    | none ↦ wm
    | some (fx, fy) ↦
        let x = env.fixed_to_int fx in
        let y = env.fixed_to_int fy in
        if sent_already wm.pointer x y
        then wm
        else record wm { pointer = some (x, y); sent = pointer_position x y ∷ wm.sent }
  ]
]

-- The end of `begin_manage`
unfoldable pub start_manage : Wm → Wm
start_manage wm = record wm {
  pending = [];
  dirty = false;
  phase = manage;
  sent = manage_start ∷ flush_binding_events (receivers wm) wm.pending wm.sent;
}

-- What `begin_manage` advertises before it flushes the events.
unfoldable pub advertise_all : Env → Wm → Wm
advertise_all env wm =
    let (outputs', sent1) = advertise_outputs env wm.outputs wm.sent in
    let (seat', ms) = advertise_seat env wm.seat in
    let (windows', sent2) = each_window (advertise_window env wm.cohort) wm.windows (ms ++ sent1) in
    record wm { outputs = outputs'; seat = seat'; windows = windows'; sent = sent2 }

-- `begin_manage`
unfoldable pub begin_manage : Env → Wm → Wm
begin_manage env wm =
    if not (is_some wm.manager) || not (is_idle wm.phase)
    then wm
    else start_manage (send_pointer_position env (advertise_all env wm))

-- `handle_idle`
unfoldable pub handle_idle : Env → Wm → Wm
handle_idle env wm = begin_manage env (record wm { idle_pending = false })

-- The size that `begin_render` reports: the committed one, or else the one on the screen.
abbrev pub current_size : Window → ℕ × ℕ
current_size v = elim (committed_size v) [
  | none ↦ (v.geometry.width, v.geometry.height)
  | some size ↦ size
]

-- The end of the loop body of `begin_render`
unfoldable pub report_size : ℕ × ℕ → RiverWindow → RiverWindow × List Message
report_size (width, height) w =
    if (width == w.sent_width) && (height == w.sent_height)
    then (w, [])
    else (record w { sent_width = width; sent_height = height }, dimensions w.id width height ∷ [])

-- The loop body of `begin_render`
unfoldable pub report : Cohort → RiverWindow → RiverWindow × List Message
report c w =
    if not (is_some w.resource)
    then (w, [])
    else elim w.swc [ none ↦ (w, []) | some k ↦ report_size (current_size (c.window k)) w ]

-- `begin_render`
unfoldable pub begin_render : Wm → Wm
begin_render wm =
    if not (is_some wm.manager)
    then record wm { phase = idle }
    else let (windows', sent') = each_window (report wm.cohort) wm.windows wm.sent in
      record wm { windows = windows'; phase = render; sent = render_start ∷ sent' }

-- What libswc returns of the cohort; its `done` callback is `begin_render`.
unfoldable pub below : Wm → Outcome → Wm
below wm (c, none) = record wm { cohort = c }
below wm (c, some timed_out) = begin_render (record wm { cohort = c })

abbrev pub manage_timeout_ms : ℕ
manage_timeout_ms = 100

-- The windows that the loop of `manager_manage_finish` passes over.
abbrev pub skipped : RiverWindow → Bool
skipped w =
    not w.has_proposal
    || w.closed
    || (pos_part w.proposed_width == 0)
    || (pos_part w.proposed_height == 0)

-- The loop body of `manager_manage_finish`
unfoldable pub configure_window : Env → RiverWindow → Wm → Wm
configure_window env w wm = elim w.swc [
  | none ↦ wm
  | some k ↦
      let g = (wm.cohort.window k).geometry in
      let proposed = record g {
        width = pos_part w.proposed_width;
        height = pos_part w.proposed_height;
      } in
      if skipped w then wm else below wm (set_geometry (env.joined k) wm.cohort k proposed)
]

unfoldable pub configure_windows : Env → List RiverWindow → Wm → Wm
configure_windows env [] wm = wm
configure_windows env (w ∷ ws) wm = configure_windows env ws (configure_window env w wm)

-- `manager_manage_finish`; whether the transaction could be opened is not looked at.
unfoldable pub manager_manage_finish : Env → Wm → Wm
manager_manage_finish env wm =
    if not (is_manage wm.phase)
    then record wm { sent = sequence_error ∷ wm.sent }
    else let opened = record wm {
      phase = settle;
      cohort = (transaction_begin env.loop env.allocated wm.cohort).0;
    } in
      let wm' = configure_windows env wm.windows opened in
      below wm' (transaction_commit env.timer_added wm'.cohort manage_timeout_ms true)

-- `manager_render_finish`
unfoldable pub manager_render_finish : Bool → Wm → Wm
manager_render_finish added wm =
    if not (is_render wm.phase)
    then record wm { sent = sequence_error ∷ wm.sent }
    else let wm' = record wm { cohort = transaction_present wm.cohort; phase = idle } in
      if wm.dirty then schedule_sequence added wm' else wm'
