-- ===== src/River/News.antt =====
-- wm/river_wm.c: the messages at the start of a manage sequence, described on their own.
use neoswc.Prelude.{
  ℕ, ◌≡◌, refl, not, ◌&&◌, Option, none, some, List, [], ◌∷◌, ◌++◌, arith, ◌==◌, if◌then◌else◌, leb,
  ap, ◌∙◌,
}
use neoswc.Transaction.{is_some}
use neoswc.Window.{Window}
use neoswc.Cohort.{Cohort}
use neoswc.River.Events.{
  Binding, find_binding, output_sent, seat_sent, window_sent, dimensions_hint, pointer_position,
  pressed, released, stop_repeat, ate_unbound, modifiers, window_interaction, button_pressed,
  key_pressed, button_released, key_released, key_stop_repeat, ate_unbound_key, modifiers_update,
  interaction_sent, Message, BindingEvent, dimensions, event_message, send, flush_binding_events,
}
use neoswc.Prelude.Int.{ℤ}
use neoswc.River.State.{Wm, Env, RiverWindow, RiverOutput, receivers, known}
use neoswc.River.Sequence.{
  start_manage, send_pointer_position, advertise, each_window, advertise_window, advertise_outputs,
  advertise_output, advertise_seat, sent_already,
}

-- Logs are kept newest first: `xs` in the order of its events, put on top of a log.
unfoldable pub rev_onto {ℓ} : {A : Type ℓ} → List A → List A → List A
rev_onto [] ys = ys
rev_onto (x ∷ xs) ys = rev_onto xs (x ∷ ys)

-- The binding of an event, if its object is there: the first on the list with its number
abbrev pub bound_to : List Binding → ℕ → Option Binding
bound_to [] i = none
bound_to (b ∷ bs) i =
    let later = bound_to bs i in if b.id == i then (if b.resource then some b else none) else later

-- The message of a seat object that has version `least`, or a later one
abbrev pub for_version : Option ℕ → ℕ → Message → List Message
for_version none least m = []
for_version (some v) least m = if leb least v then m ∷ [] else []

-- What an event means to the manager: to which object it goes, and as what.
abbrev pub delivery : Wm → BindingEvent → List Message
delivery wm (pressed i) = elim (bound_to wm.bindings i) [
  | none ↦ []
  | some b ↦ (if b.is_button then button_pressed i else key_pressed i) ∷ []
]
delivery wm (released i) = elim (bound_to wm.bindings i) [
  | none ↦ []
  | some b ↦ (if b.is_button then button_released i else key_released i) ∷ []
]
delivery wm (stop_repeat i) = elim (bound_to wm.bindings i) [
  | none ↦ []
  | some b ↦ for_version (some b.version) 2 (key_stop_repeat i)
]
delivery wm ate_unbound = for_version wm.xkb_seat 2 ate_unbound_key
delivery wm (modifiers before now) = for_version wm.xkb_seat 3 (modifiers_update before now)
delivery wm (window_interaction i) = elim wm.seat [
  | none ↦ []
  | some v ↦ if known wm.windows i then interaction_sent i ∷ [] else []
]

-- The messages of the queue, in its order
pub deliveries : Wm → List BindingEvent → List Message
deliveries wm [] = []
deliveries wm (e ∷ es) = delivery wm e ++ deliveries wm es

delivery-start_manage : (wm : Wm) (e : BindingEvent) → delivery wm e ≡ delivery (start_manage wm) e
unfolding start_manage
delivery-start_manage wm (pressed i) = refl
delivery-start_manage wm (released i) = refl
delivery-start_manage wm (stop_repeat i) = refl
delivery-start_manage wm ate_unbound = refl
delivery-start_manage wm (modifiers before now) = refl
delivery-start_manage wm (window_interaction i) = refl

pub deliveries-start_manage :
    (wm : Wm) (es : List BindingEvent) → deliveries wm es ≡ deliveries (start_manage wm) es
unfolding deliveries
deliveries-start_manage wm [] = refl
deliveries-start_manage wm (e ∷ es) =
    ap (λ ms. ms ++ deliveries wm es) (delivery-start_manage wm e)
    ∙ ap (λ ms. delivery (start_manage wm) e ++ ms) (deliveries-start_manage wm es)

find_binding-bound_to :
    (bs : List Binding) (i : ℕ)
    → elim (find_binding i bs) [ none ↦ none | some b ↦ if b.resource then some b else none ]
      ≡ bound_to bs i
unfolding find_binding
find_binding-bound_to [] i = refl
find_binding-bound_to (b ∷ bs) i = ground (arith, find_binding-bound_to bs i)

deliver :
    (wm : Wm) (e : BindingEvent) (es : List BindingEvent) (sent : List Message)
    → rev_onto (deliveries wm es) (send (event_message (receivers wm) e) sent)
      ≡ rev_onto (deliveries wm (e ∷ es)) sent
unfolding deliveries rev_onto event_message
deliver wm (pressed i) es sent = ground (arith, find_binding-bound_to wm.bindings i)
deliver wm (released i) es sent = ground (arith, find_binding-bound_to wm.bindings i)
deliver wm (stop_repeat i) es sent = ground (arith, find_binding-bound_to wm.bindings i)
deliver wm ate_unbound es sent = ground arith
deliver wm (modifiers before now) es sent = ground arith
deliver wm (window_interaction i) es sent = ground arith

pub flush-deliveries :
    (wm : Wm) (es : List BindingEvent) (sent : List Message)
    → flush_binding_events (receivers wm) es sent ≡ rev_onto (deliveries wm es) sent
unfolding flush_binding_events deliveries rev_onto
flush-deliveries wm [] sent = refl
flush-deliveries wm (e ∷ es) sent =
    flush-deliveries wm es (send (event_message (receivers wm) e) sent) ∙ deliver wm e es sent

-- What is new to the manager, in the order of the events: an output, the seat, and a window with its
-- limits and its size, each if an object for it can be made
abbrev pub output_news : Env → List RiverOutput → List Message
output_news env [] = []
output_news env (o ∷ os) =
    (if not o.advertised && env.output_object o.id then output_sent o.id ∷ [] else [])
    ++ output_news env os

abbrev pub seat_news : Env → Option ℕ → List Message
seat_news env (some v) = []
seat_news env none = if env.seat_object then seat_sent ∷ [] else []

abbrev introduced : ℕ → Window → List Message
introduced i v =
    window_sent i
    ∷ dimensions_hint i v.min_width v.min_height v.max_width v.max_height
    ∷ dimensions i v.geometry.width v.geometry.height
    ∷ []

abbrev pub window_news : Env → Cohort → List RiverWindow → List Message
window_news env c [] = []
window_news env c (w ∷ ws) =
    (elim w.swc [
      | none ↦ []
      | some k ↦
          if not w.closed && not w.advertised && is_some (env.window_object w.id)
          then introduced w.id (c.window k)
          else []
    ])
    ++ window_news env c ws

-- The position of the pointer, for a seat object of version 2, if it is another than the last one sent
abbrev pub pointer_news : Env → Option ℕ → Option (ℤ × ℤ) → List Message
pointer_news env seat last = elim seat [
  | none ↦ []
  | some v ↦ elim env.cursor [
    | none ↦ []
    | some (fx, fy) ↦
        let x = env.fixed_to_int fx in
        let y = env.fixed_to_int fy in
        if leb 2 v && not (sent_already last x y) then pointer_position x y ∷ [] else []
  ]
]

abbrev pub news : Env → Wm → Option ℕ → List Message
news env wm seat =
    output_news env wm.outputs
    ++ (seat_news env wm.seat
        ++ (window_news env wm.cohort wm.windows ++ pointer_news env seat wm.pointer))

unfoldable pub rev_onto-append :
    (xs ys zs : List Message) → rev_onto (xs ++ ys) zs ≡ rev_onto ys (rev_onto xs zs)
unfolding rev_onto
rev_onto-append [] ys zs = refl
rev_onto-append (x ∷ xs) ys zs = rev_onto-append xs ys (x ∷ zs)

pub advertise_outputs-news :
    (env : Env) (os : List RiverOutput) (sent : List Message)
    → (advertise_outputs env os sent).1 ≡ rev_onto (output_news env os) sent
unfolding advertise_outputs advertise_output rev_onto
advertise_outputs-news env [] sent = refl
advertise_outputs-news env (o ∷ os) sent =
    advertise_outputs-news env os ((advertise_output env o).1 ++ sent) ∙ ground arith

pub each_window-news :
    (env : Env) (c : Cohort) (ws : List RiverWindow) (sent : List Message)
    → (each_window (advertise_window env c) ws sent).1 ≡ rev_onto (window_news env c ws) sent
unfolding each_window advertise_window advertise rev_onto
each_window-news env c [] sent = refl
each_window-news env c (w ∷ ws) sent =
    each_window-news env c ws ((if w.closed then (w, []) else advertise_window env c w).1 ++ sent)
    ∙ ground arith

pub advertise_seat-news :
    (env : Env) (seat : Option ℕ) (sent : List Message)
    → (advertise_seat env seat).1 ++ sent ≡ rev_onto (seat_news env seat) sent
unfolding advertise_seat rev_onto
advertise_seat-news env seat sent = ground arith

pub pointer-news :
    (env : Env) (wm : Wm)
    → (send_pointer_position env wm).sent ≡ rev_onto (pointer_news env wm.seat wm.pointer) wm.sent
unfolding send_pointer_position rev_onto
pointer-news env wm = ground arith
