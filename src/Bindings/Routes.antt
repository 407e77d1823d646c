-- ===== src/Bindings/Routes.antt =====
-- libswc/bindings.c: which handler a press, its release and a scroll reach.
use neoswc.Prelude.{
  ℕ, zero, suc, ◌≡◌, refl, ◌⊎◌, inl, inr, Bool, true, false, Option, none, some, List, [], ◌∷◌,
  arith, get_elem?, Option-cases, if_ind, sym, subst,
}
use neoswc.Bindings.{
  Binding, Bindings, Keymap, HandlerCall, matches, next, find_binding, find_key_binding,
  handle_binding, handle_key, call_slot,
}

-- The binding in a slot matches, and none before it does.
pub First : List Binding → ℕ → ℕ → ℕ → Type 0
First [] modifiers value i = ⊥
First (b ∷ bs) modifiers value zero = matches modifiers value b ≡ true
First (b ∷ bs) modifiers value (suc i) =
    (matches modifiers value b ≡ false) × First bs modifiers value i

pub None : List Binding → ℕ → ℕ → Type 0
None [] modifiers value = Unit
None (b ∷ bs) modifiers value = (matches modifiers value b ≡ false) × None bs modifiers value

unfoldable pub Answer : List Binding → ℕ → ℕ → Option ℕ → Type 0
Answer bs modifiers value none = None bs modifiers value
Answer bs modifiers value (some i) = First bs modifiers value i

Answer-next :
    (b : Binding) (bs : List Binding) (modifiers value : ℕ) (o : Option ℕ)
    → matches modifiers value b ≡ false
    → Answer bs modifiers value o
    → Answer (b ∷ bs) modifiers value (next o)
unfolding Answer None First
Answer-next b bs modifiers value none e a = (e, a)
Answer-next b bs modifiers value (some i) e a = (e, a)

pub find_binding-Answer :
    (bs : List Binding) (modifiers value : ℕ)
    → Answer bs modifiers value (find_binding bs modifiers value)
unfolding find_binding Answer None First
find_binding-Answer [] modifiers value = tt
find_binding-Answer (b ∷ bs) modifiers value =
    if_ind (Answer (b ∷ bs) modifiers value) (matches modifiers value b) (λ h. h)
      λ h.
        Answer-next b bs modifiers value (find_binding bs modifiers value) h
          (find_binding-Answer bs modifiers value)

pub Answer-First :
    (bs : List Binding) (modifiers value i : ℕ)
    → find_binding bs modifiers value ≡ some i
    → First bs modifiers value i
unfolding Answer
Answer-First bs modifiers value i e =
    subst (Answer bs modifiers value) e (find_binding-Answer bs modifiers value)

pub First-call_slot :
    (bs : List Binding) (modifiers value i : ℕ) (state : Bool)
    → First bs modifiers value i
    → (b : Binding) × (get_elem? bs i ≡ some b)
      × (call_slot bs i state
          ≡ some (record { called = b.handler; with_value = b.value; state = state }))
unfolding First
First-call_slot [] modifiers value i state f = elim f [ ]
First-call_slot (b ∷ bs) modifiers value zero state f = (b, refl, refl)
First-call_slot (b ∷ bs) modifiers value (suc i) state f =
    First-call_slot bs modifiers value i state f.1

pub First-matches :
    (bs : List Binding) (modifiers value i : ℕ)
    → First bs modifiers value i
    → (b : Binding) × (get_elem? bs i ≡ some b) × (matches modifiers value b ≡ true)
unfolding First
First-matches [] modifiers value i f = elim f [ ]
First-matches (b ∷ bs) modifiers value zero f = (b, refl, f)
First-matches (b ∷ bs) modifiers value (suc i) f = First-matches bs modifiers value i f.1

-- The binding of a key: by the symbol it gives now, or else by that of its level 0
pub KeyFirst : Keymap → List Binding → ℕ → ℕ → ℕ → Type 0
KeyFirst map bs modifiers k i =
    First bs modifiers (map.one_sym k) i
    ⊎ ((sym : ℕ) × (find_binding bs modifiers (map.one_sym k) ≡ none)
        × (map.level_0 k ≡ some sym)
        × First bs modifiers sym i)

find_key_binding-KeyFirst :
    (map : Keymap) (bs : List Binding) (modifiers k i : ℕ)
    → find_key_binding map bs modifiers k ≡ some i
    → KeyFirst map bs modifiers k i
unfolding find_key_binding KeyFirst
find_key_binding-KeyFirst map bs modifiers k i e =
    elim (Option-cases (find_binding bs modifiers (map.one_sym k))) [
      | inr (j, found) ↦
          inl (Answer-First bs modifiers (map.one_sym k) i (ground (arith, e, found)))
      | inl none_now ↦ elim (Option-cases (map.level_0 k)) [
        | inl no_sym ↦ absurd (ground (arith, e, none_now, no_sym))
        | inr (sym, level) ↦ inr (
          sym,
          none_now,
          level,
          Answer-First bs modifiers sym i (ground (arith, e, none_now, level)),
        )
      ]
    ]

pub Live : List Binding → ℕ → Type 0
Live bs i = (b : Binding) × (get_elem? bs i ≡ some b)

KeyFirst-Live :
    (map : Keymap) (bs : List Binding) (modifiers k i : ℕ)
    → KeyFirst map bs modifiers k i
    → Live bs i
unfolding KeyFirst Live
KeyFirst-Live map bs modifiers k i (inl f) =
    let (b, e, c) = First-call_slot bs modifiers (map.one_sym k) i true f in (b, e)
KeyFirst-Live map bs modifiers k i (inr (sym, n, l, f)) =
    let (b, e, c) = First-call_slot bs modifiers sym i true f in (b, e)

pub Routed : List Binding → (ℕ → Type 0) → ℕ × Option HandlerCall × Bool → Type 0
Routed bs K pressed =
    K pressed.0
    × (e : Binding) × (get_elem? bs pressed.0 ≡ some e)
    × (pressed.1 ≡ some (record { called = e.handler; with_value = e.value; state = true }))
    × (call_slot bs pressed.0 false
        ≡ some (record { called = e.handler; with_value = e.value; state = false }))

handle_binding-Routed :
    (bs : List Binding) (found : Option ℕ) (slot : ℕ) (K : ℕ → Type 0)
    → ((i : ℕ) → found ≡ some i → K i)
    → ((i : ℕ) → K i → Live bs i)
    → (handle_binding bs found slot true).2 ≡ true
    → Routed bs K (handle_binding bs found slot true)
unfolding handle_binding Routed Live
handle_binding-Routed bs none slot K found live taken = absurd (ground (arith, taken))
handle_binding-Routed bs (some i) slot K found live taken =
    let (b, e) = live i (found i refl) in (found i refl, b, e, ground (arith, e), ground (arith, e))

-- A press that is taken reaches the first binding, in the order they stand, whose modifiers are
-- those held or any, and whose symbol is the one that the key gives now, or failing that the one
-- of its level 0; and while no binding is added or removed, the release reaches the same handler
-- with the same value, whatever modifiers are held by then.
pub handle_key-release :
    (map : Keymap) (b : Bindings) (modifiers modifiers' k slot : ℕ)
    → let pressed = handle_key map b modifiers k slot true in
      pressed.2 ≡ true
      → KeyFirst map b.key_bindings modifiers k pressed.0
        × (e : Binding) × (get_elem? b.key_bindings pressed.0 ≡ some e)
        × (pressed.1 ≡ some (record { called = e.handler; with_value = e.value; state = true }))
        × ((handle_key map b modifiers' k pressed.0 false).1
            ≡ some (record { called = e.handler; with_value = e.value; state = false }))
unfolding handle_binding Routed
handle_key-release map b modifiers modifiers' k slot taken =
    handle_binding-Routed b.key_bindings (find_key_binding map b.key_bindings modifiers k) slot
      (KeyFirst map b.key_bindings modifiers k)
      (find_key_binding-KeyFirst map b.key_bindings modifiers k)
      (KeyFirst-Live map b.key_bindings modifiers k) taken
