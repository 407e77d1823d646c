-- ===== src/River/Reports.antt =====
-- wm/river_wm.c: what the manager is told at the start of its two sequences.
use neoswc.Prelude.{
  ℕ, ◌≡◌, refl, true, false, not, ◌&&◌, ◌||◌, Option, none, some, List, [], ◌∷◌, ◌++◌, arith, ◌==◌,
  if◌then◌else◌, if_ind, Option-cases, inl, inr, ◌⊎◌, subst, ap, sym, ◌∙◌,
}
use neoswc.Transaction.{is_some}
use neoswc.Window.{Window, committed_size}
use neoswc.Cohort.{Cohort}
use neoswc.River.Events.{Message, dimensions, render_start, manage_start}
use neoswc.River.News.{
  rev_onto, deliveries, flush-deliveries, deliveries-start_manage, output_news, seat_news,
  window_news, pointer_news, news, rev_onto-append, advertise_outputs-news, each_window-news,
  advertise_seat-news, pointer-news,
}
use neoswc.River.State.{Wm, Env, RiverWindow, is_idle, idle, manage, render}
use neoswc.River.Sequence.{
  begin_render, begin_manage, start_manage, advertise_all, send_pointer_position, advertise, report,
  report_size, current_size, each_window, advertise_window, advertise_outputs, advertise_seat,
}

-- The size of a window: that of the area it declares within its buffer, if it declares one that is not
-- empty, else that of its buffer; and as long as it has no buffer, that of its place on the screen.
abbrev pub window_size : Window → ℕ × ℕ
window_size v =
    let declared =
      v.has_window_geometry && not (v.window_width == 0) && not (v.window_height == 0) in
    if not v.has_buffer then (v.geometry.width, v.geometry.height) else (
      (if declared then v.window_width else v.buffer_width),
      (if declared then v.window_height else v.buffer_height),
    )

current_size-window_size : (v : Window) → current_size v ≡ window_size v
unfolding committed_size
current_size-window_size v = ground arith

-- Of the windows that are shown to the manager, those whose size differs from the one it knows.
pub shown_size : Cohort → RiverWindow → Option (ℕ × ℕ)
shown_size c w = elim w.swc [
  | none ↦ none
  | some k ↦ if is_some w.resource && not w.closed then some (window_size (c.window k)) else none
]

pub changes : Cohort → List RiverWindow → List Message
changes c [] = []
changes c (w ∷ ws) = elim (shown_size c w) [
  | none ↦ changes c ws
  | some (width, height) ↦
      if (width == w.sent_width) && (height == w.sent_height)
      then changes c ws
      else dimensions w.id width height ∷ changes c ws
]

-- What the manager knows of a window's size is its present size.
pub UpToDate : Cohort → RiverWindow → Type 0
UpToDate c w = (size : ℕ × ℕ) → shown_size c w ≡ some size → (w.sent_width, w.sent_height) ≡ size

pub AllUpToDate : Cohort → List RiverWindow → Type 0
AllUpToDate c [] = Unit
AllUpToDate c (w ∷ ws) = UpToDate c w × AllUpToDate c ws

reported : Cohort → RiverWindow → RiverWindow × List Message
reported c w = if w.closed then (w, []) else report c w

report-UpToDate : (c : Cohort) (w : RiverWindow) → UpToDate c (reported c w).0
unfolding UpToDate shown_size reported report report_size
report-UpToDate c w size e = elim (Option-cases w.swc) [
  | inl n ↦ ground (arith, n, e)
  | inr (k, n) ↦ ground (arith, n, e, current_size-window_size (c.window k))
]

report-changes :
    (c : Cohort) (w : RiverWindow) (ws : List RiverWindow) (sent : List Message)
    → rev_onto (changes c (w ∷ ws)) sent ≡ rev_onto (changes c ws) ((reported c w).1 ++ sent)
unfolding changes rev_onto shown_size reported report report_size
report-changes c w ws sent = elim (Option-cases w.swc) [
  | inl n ↦ ground (arith, n)
  | inr (k, n) ↦ ground (arith, n, current_size-window_size (c.window k))
]

each_window-AllUpToDate :
    (c : Cohort) (ws : List RiverWindow) (sent : List Message)
    → AllUpToDate c (each_window (report c) ws sent).0
unfolding AllUpToDate each_window reported
each_window-AllUpToDate c [] sent = tt
each_window-AllUpToDate c (w ∷ ws) sent =
    (report-UpToDate c w, each_window-AllUpToDate c ws ((reported c w).1 ++ sent))

each_window-changes :
    (c : Cohort) (ws : List RiverWindow) (sent : List Message)
    → (each_window (report c) ws sent).1 ≡ rev_onto (changes c ws) sent
unfolding each_window changes rev_onto reported
each_window-changes c [] sent = refl
each_window-changes c (w ∷ ws) sent =
    each_window-changes c ws ((reported c w).1 ++ sent) ∙ sym (report-changes c w ws sent)

-- At the start of the render sequence a manager is told, in the order of the windows and before
-- `render_start`, the size of each of its windows that is open and whose size is another than the one
-- it was told last, and nothing else; behind it the size it knows of each such window is the one it
-- has. The size is that of the area that the window declares within its committed buffer, or else of
-- the buffer, and before the first buffer that of its place on the screen.
pub begin_render-reports :
    (wm : Wm)
    → is_some wm.manager ≡ true
    → let wm' = begin_render wm in
      (wm'.phase ≡ render)
      × (wm'.sent ≡ render_start ∷ rev_onto (changes wm.cohort wm.windows) wm.sent)
      × AllUpToDate wm.cohort wm'.windows
unfolding begin_render
begin_render-reports wm here =
    if_ind
      (λ (wm' : Wm).
        (wm'.phase ≡ render)
        × (wm'.sent ≡ render_start ∷ rev_onto (changes wm.cohort wm.windows) wm.sent)
        × AllUpToDate wm.cohort wm'.windows)
      (not (is_some wm.manager)) (λ h. absurd (ground (arith, here, h)))
      λ _. (
        refl,
        ap (λ l. render_start ∷ l) (each_window-changes wm.cohort wm.windows wm.sent),
        each_window-AllUpToDate wm.cohort wm.windows wm.sent,
      )

-- A window of the new sequence: no proposal is left from the last one, and the manager knows it.
pub Announced : Env → RiverWindow → Type 0
Announced env w =
    w.closed ≡ false
    → is_some w.swc ≡ true
    → (w.has_proposal ≡ false) × ((w.advertised ≡ true) ⊎ (env.window_object w.id ≡ none))

pub AllAnnounced : Env → List RiverWindow → Type 0
AllAnnounced env [] = Unit
AllAnnounced env (w ∷ ws) = Announced env w × AllAnnounced env ws

advertised : Env → Cohort → RiverWindow → RiverWindow × List Message
advertised env c w = if w.closed then (w, []) else advertise_window env c w

advertise_window-Announced :
    (env : Env) (c : Cohort) (w : RiverWindow) → Announced env (advertised env c w).0
unfolding Announced advertised advertise_window advertise
advertise_window-Announced env c w = ground arith

each_window-AllAnnounced :
    (env : Env) (c : Cohort) (ws : List RiverWindow) (sent : List Message)
    → AllAnnounced env (each_window (advertise_window env c) ws sent).0
unfolding AllAnnounced each_window advertised
each_window-AllAnnounced env c [] sent = tt
each_window-AllAnnounced env c (w ∷ ws) sent = (
  advertise_window-Announced env c w,
  each_window-AllAnnounced env c ws ((advertised env c w).1 ++ sent),
)

pointer-keeps :
    (env : Env) (wm : Wm)
    → let wm' = send_pointer_position env wm in
      (wm'.windows ≡ wm.windows) × (wm'.pending ≡ wm.pending) × (wm'.seat ≡ wm.seat)
unfolding send_pointer_position
pointer-keeps env wm = ground arith

advertised_all : Env → Wm → Wm
advertised_all env wm = send_pointer_position env (advertise_all env wm)

ready-news :
    (env : Env) (wm : Wm)
    → let ready = advertised_all env wm in ready.sent ≡ rev_onto (news env wm ready.seat) wm.sent
unfolding advertised_all advertise_all
ready-news env wm =
    let all = advertise_all env wm in
    let outputs = output_news env wm.outputs in
    let seat = seat_news env wm.seat in
    let windows = window_news env wm.cohort wm.windows in
    let pointer = pointer_news env (advertised_all env wm).seat wm.pointer in
    pointer-news env all
    ∙ ap (λ s. rev_onto (pointer_news env s wm.pointer) all.sent) (sym (pointer-keeps env all).2)
    ∙ ap (rev_onto pointer) (
        each_window-news env wm.cohort wm.windows
          ((advertise_seat env wm.seat).1 ++ (advertise_outputs env wm.outputs wm.sent).1)
        ∙ ap (rev_onto windows) (
            advertise_seat-news env wm.seat (advertise_outputs env wm.outputs wm.sent).1
            ∙ ap (rev_onto seat) (advertise_outputs-news env wm.outputs wm.sent)))
    ∙ sym (
        rev_onto-append outputs (seat ++ (windows ++ pointer)) wm.sent
        ∙ rev_onto-append seat (windows ++ pointer) (rev_onto outputs wm.sent)
        ∙ rev_onto-append windows pointer (rev_onto seat (rev_onto outputs wm.sent)))

ready-pending : (env : Env) (wm : Wm) → (advertised_all env wm).pending ≡ wm.pending
unfolding advertised_all advertise_all
ready-pending env wm = (pointer-keeps env (advertise_all env wm)).1

ready-AllAnnounced : (env : Env) (wm : Wm) → AllAnnounced env (advertised_all env wm).windows
unfolding advertised_all advertise_all
ready-AllAnnounced env wm =
    subst (AllAnnounced env) (sym (pointer-keeps env (advertise_all env wm)).0)
      (each_window-AllAnnounced env wm.cohort wm.windows _)

-- With a manager there and no sequence under way, a manage sequence begins. The manager is told, in
-- this order: each output that is new, the seat if it is, each open window that is, with its limits and
-- its size, all where an object could be made, and the pointer's position if it has moved since; then
-- the events of the queue in the order they came, each by the message for it to the object it is for,
-- if that is there and of a version that has it; and `manage_start`. The queue is then empty, nothing
-- is dirty, and each open window is without a proposal and known to the manager, unless its object
-- could not be made.
pub begin_manage-delivers :
    (env : Env) (wm : Wm)
    → is_some wm.manager ≡ true
    → wm.phase ≡ idle
    → let wm' = begin_manage env wm in
      (wm'.phase ≡ manage)
      × (wm'.dirty ≡ false)
      × (wm'.pending ≡ [])
      × (wm'.sent
          ≡ manage_start ∷ rev_onto (news env wm wm'.seat ++ deliveries wm' wm.pending) wm.sent)
      × AllAnnounced env wm'.windows
unfolding begin_manage start_manage advertised_all
begin_manage-delivers env wm here phase =
    let ready = advertised_all env wm in
    if_ind
      (λ (wm' : Wm).
        (wm'.phase ≡ manage)
        × (wm'.dirty ≡ false)
        × (wm'.pending ≡ [])
        × (wm'.sent
            ≡ manage_start ∷ rev_onto (news env wm wm'.seat ++ deliveries wm' wm.pending) wm.sent)
        × AllAnnounced env wm'.windows)
      (not (is_some wm.manager) || not (is_idle wm.phase))
      (λ h. absurd (ground (arith, here, phase, h)))
      λ _. (
        refl,
        refl,
        refl,
        ap (λ l. manage_start ∷ l)
            (flush-deliveries ready ready.pending ready.sent
              ∙ ap (λ es. rev_onto (deliveries ready es) ready.sent) (ready-pending env wm)
              ∙ ap (rev_onto (deliveries ready wm.pending)) (ready-news env wm)
              ∙ sym (rev_onto-append (news env wm ready.seat) (deliveries ready wm.pending) wm.sent)
              ∙ ap (λ ms. rev_onto (news env wm ready.seat ++ ms) wm.sent)
                  (deliveries-start_manage ready wm.pending)),
        ready-AllAnnounced env wm,
      )
