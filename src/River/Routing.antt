-- ===== src/River/Routing.antt =====
-- wm/river_wm.c: which binding a key belongs to, from its press to its release.
use neoswc.Prelude.{
  ℕ, ◌≡◌, refl, Bool, true, false, not, ◌&&◌, Option, none, some, List, [], ◌∷◌, ◌++◌, arith,
  if◌then◌else◌, map, Bool-cases, inl, inr, ap, sym, ◌∙◌, subst,
}
use mathlib.Core.List.{append-nil, append_assoc}
use neoswc.Transaction.{is_some}
use neoswc.River.Events.{Binding, BindingEvent, find_binding, pressed, released, stop_repeat}
use neoswc.River.State.{Wm}
use neoswc.River.Sequence.{schedule_sequence}
use neoswc.River.Keys.{
  Layout, and_not, queue_event, modify_binding, held_by, find_match, is_match, stop_repeats, fire,
  observe_press, observe_release,
}

-- The bindings that a press makes stop: those held, less the one that it triggers.
pub stops : Option Binding → List Binding → List BindingEvent
stops m [] = []
stops m (b ∷ bs) =
    if not b.is_button && b.held && not (is_match m b)
    then stop_repeat b.id ∷ stops m bs
    else stops m bs

queue_event-keeps :
    (e : BindingEvent) (wm : Wm)
    → let wm' = queue_event true true e wm in
      (wm'.pending ≡ wm.pending ++ (e ∷ []))
      × (wm'.bindings ≡ wm.bindings)
      × (wm'.eat_next_key ≡ wm.eat_next_key)
unfolding queue_event schedule_sequence
queue_event-keeps e wm = ground arith

stop_repeats-keeps :
    (m : Option Binding) (bs : List Binding) (wm : Wm)
    → let wm' = stop_repeats true true m bs wm in
      (wm'.pending ≡ wm.pending ++ stops m bs)
      × (wm'.bindings ≡ wm.bindings)
      × (wm'.eat_next_key ≡ wm.eat_next_key)
unfolding stop_repeats stops
stop_repeats-keeps m [] wm = (sym (append-nil wm.pending), refl, refl)
stop_repeats-keeps m (b ∷ bs) wm =
    elim (Bool-cases (not b.is_button && b.held && not (is_match m b))) [
      | inl h ↦
          let queued = queue_event true true (stop_repeat b.id) wm in
          let (p, q, r) = stop_repeats-keeps m bs queued in
          let (p', q', r') = queue_event-keeps (stop_repeat b.id) wm in
          subst
            (λ x.
              let wm' = stop_repeats true true m bs (if x then queued else wm) in
              (wm'.pending
                ≡ wm.pending ++ (if x then stop_repeat b.id ∷ stops m bs else stops m bs))
              × (wm'.bindings ≡ wm.bindings)
              × (wm'.eat_next_key ≡ wm.eat_next_key))
            (sym h)
            (
              p
                  ∙ ap (λ l. l ++ stops m bs) p'
                  ∙ append_assoc wm.pending (stop_repeat b.id ∷ []) (stops m bs),
              q ∙ q',
              r ∙ r',
            )
      | inr h ↦
          subst
            (λ x.
              let wm' =
                stop_repeats true true m bs
                  (if x then queue_event true true (stop_repeat b.id) wm else wm) in
              (wm'.pending
                ≡ wm.pending ++ (if x then stop_repeat b.id ∷ stops m bs else stops m bs))
              × (wm'.bindings ≡ wm.bindings)
              × (wm'.eat_next_key ≡ wm.eat_next_key))
            (sym h) (stop_repeats-keeps m bs wm)
    ]

-- No two bindings of the list are the same object.
unfoldable pub distinct : List Binding → Bool
distinct [] = true
distinct (b ∷ bs) = not (is_some (find_binding b.id bs)) && distinct bs

found_bound :
    (l : Layout) (keycode effective : ℕ) (bs : List Binding) (b : Binding)
    → find_match l keycode effective bs ≡ some b
    → is_some (find_binding b.id bs) ≡ true
unfolding find_match find_binding
found_bound l keycode effective [] b e = ground arith
found_bound l keycode effective (b' ∷ bs) b e = ground (arith, found_bound l keycode effective bs b)

abbrev hold : ℕ → Binding → Binding
hold keycode b = record b { held = true; held_keycode = keycode }

abbrev unhold : Binding → Binding
unhold b = record b { held = false }

held_by-hold :
    (l : Layout) (keycode effective : ℕ) (bs : List Binding) (b : Binding)
    → distinct bs ≡ true
    → held_by keycode bs ≡ none
    → find_match l keycode effective bs ≡ some b
    → held_by keycode (modify_binding b.id (hold keycode) bs) ≡ some (hold keycode b)
unfolding distinct held_by find_match modify_binding
held_by-hold l keycode effective [] b d n e = ground (arith, e)
held_by-hold l keycode effective (b' ∷ bs) b d n e =
    ground (arith, held_by-hold l keycode effective bs b, found_bound l keycode effective bs b)

held_by-unhold :
    (keycode i : ℕ) (bs : List Binding)
    → held_by keycode bs ≡ none
    → held_by keycode (modify_binding i unhold (modify_binding i (hold keycode) bs)) ≡ none
unfolding held_by modify_binding
held_by-unhold keycode i [] n = refl
held_by-unhold keycode i (b ∷ bs) n = ground (arith, held_by-unhold keycode i bs)

fire-bindings :
    (keycode : ℕ) (b : Binding) (wm : Wm)
    → (fire true true keycode (some b) wm).0.bindings
      ≡ modify_binding b.id (hold keycode) wm.bindings
unfolding fire
fire-bindings keycode b wm = (queue_event-keeps (pressed b.id) _).1

press-bindings :
    (l : Layout) (keycode : ℕ) (wm : Wm) (b : Binding)
    → find_match l keycode (and_not l.active (l.consumed_modifiers keycode)) wm.bindings ≡ some b
    → (observe_press true true l keycode wm).0.bindings
      ≡ modify_binding b.id (hold keycode) wm.bindings
unfolding observe_press
press-bindings l keycode wm b e =
    subst
      (λ found.
        (fire true true keycode found (stop_repeats true true found wm.bindings wm)).0.bindings
        ≡ modify_binding b.id (hold keycode) wm.bindings)
      (sym e)
      (fire-bindings keycode b (stop_repeats true true (some b) wm.bindings wm)
        ∙ ap (modify_binding b.id (hold keycode)) (stop_repeats-keeps (some b) wm.bindings wm).1)

release_lem :
    (keycode : ℕ) (wm : Wm) (b : Binding)
    → held_by keycode wm.bindings ≡ some b
    → let r = observe_release true true keycode wm in
      (r.1 ≡ true)
      × (r.0.pending ≡ wm.pending ++ (released b.id ∷ []))
      × (r.0.bindings ≡ modify_binding b.id unhold wm.bindings)
unfolding observe_release queue_event schedule_sequence
release_lem keycode wm b e = ground (arith, e)

-- A change of a binding that leaves alone which key holds it, as its requests all do
abbrev pub Keeps : Binding → Binding → Type 0
Keeps b b' =
    (b'.id ≡ b.id)
    × (b'.is_button ≡ b.is_button)
    × (b'.held ≡ b.held)
    × (b'.held_keycode ≡ b.held_keycode)

module _ (f : Binding → Binding) (keeps : (b : Binding) → Keeps b (f b)) where
  held_by-map :
      (keycode : ℕ) (bs : List Binding) (b : Binding)
      → held_by keycode bs ≡ some b
      → held_by keycode (map f bs) ≡ some (f b)
  unfolding held_by
  held_by-map keycode [] b e = ground (arith, e)
  held_by-map keycode (b' ∷ bs) b e = ground (arith, e, keeps b', held_by-map keycode bs b)

  held_by-map_nothing :
      (keycode : ℕ) (bs : List Binding)
      → held_by keycode bs ≡ none
      → held_by keycode (map f bs) ≡ none
  unfolding held_by
  held_by-map_nothing keycode [] e = refl
  held_by-map_nothing keycode (b ∷ bs) e =
      ground (arith, e, keeps b, held_by-map_nothing keycode bs)

  held_by-modify_binding-map :
      (keycode i : ℕ) (bs : List Binding)
      → held_by keycode (modify_binding i unhold bs) ≡ none
      → held_by keycode (modify_binding i unhold (map f bs)) ≡ none
  unfolding held_by modify_binding
  held_by-modify_binding-map keycode i [] n = refl
  held_by-modify_binding-map keycode i (b ∷ bs) n =
      ground
        (arith, n, keeps b, held_by-modify_binding-map keycode i bs, held_by-map_nothing keycode bs)

-- The release of a key goes to the binding that its press triggered, whatever the modifiers and the
-- layout are by then, and whatever has become of the bindings in between, which stay the same objects,
-- held by the keys that hold them: they may be disabled, enabled, or given another layout. Behind the
-- press of a key that no binding holds, and that triggers one, its release is taken too, queued for
-- that binding, and leaves the key held by no binding. The bindings are distinct objects.
pub press-release :
    (l : Layout) (keycode : ℕ) (wm : Wm) (b : Binding) (f : Binding → Binding) (later : Wm)
    → distinct wm.bindings ≡ true
    → held_by keycode wm.bindings ≡ none
    → find_match l keycode (and_not l.active (l.consumed_modifiers keycode)) wm.bindings ≡ some b
    → ((b' : Binding) → Keeps b' (f b'))
    → later.bindings ≡ map f (observe_press true true l keycode wm).0.bindings
    → let r = observe_release true true keycode later in
      (r.1 ≡ true)
      × (r.0.pending ≡ later.pending ++ (released b.id ∷ []))
      × (held_by keycode r.0.bindings ≡ none)
press-release l keycode wm b f later d n e keeps same =
    let effective = and_not l.active (l.consumed_modifiers keycode) in
    let held = modify_binding b.id (hold keycode) wm.bindings in
    let here = same ∙ ap (map f) (press-bindings l keycode wm b e) in
    let (taken, queued, left) = release_lem keycode later (f (hold keycode b)) (
      ap (held_by keycode) here
      ∙ held_by-map f keeps keycode held (hold keycode b)
          (held_by-hold l keycode effective wm.bindings b d n e)) in
    let same_id = (keeps (hold keycode b)).0 in
    (
      taken,
      queued ∙ ap (λ i. later.pending ++ (released i ∷ [])) same_id,
      ap (held_by keycode) (
            left
            ∙ ap (λ i. modify_binding i unhold later.bindings) same_id
            ∙ ap (modify_binding b.id unhold) here)
          ∙ held_by-modify_binding-map f keeps keycode b.id held
              (held_by-unhold keycode b.id wm.bindings n),
    )
