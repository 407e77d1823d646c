-- ===== src/Bindings/Removal.antt =====
-- libswc/bindings.c: what a removal leaves in the array.
use neoswc.Prelude.{
  ℕ, zero, suc, ◌+◌, ◌-◌, ◌≡◌, ◌≢◌, ◌⊎◌, inl, inr, Bool, true, none, some, List, [], ◌∷◌, arith,
  ◌==◌, if◌then◌else◌, get_elem?, Option-cases, option_ind, sym, ◌∙◌, ◌<◌, length, set, take, subst,
  length-set, get_elem?-set_ne, if_ind,
}
use neoswc.Bindings.Routes.{None, Answer, Answer-First, find_binding-Answer, First-matches}
use neoswc.Bindings.{Binding, matches, find_binding, remove_slot, remove_from}

-- How many bindings of the array have a property
pub count : (Binding → Bool) → List Binding → ℕ
count p [] = 0
count p (b ∷ bs) = (if p b then 1 else 0) + count p bs

count-set :
    (p : Binding → Bool) (bs : List Binding) (i : ℕ) (old v : Binding)
    → get_elem? bs i ≡ some old
    → count p (set bs i v) + (if p old then 1 else 0) ≡ count p bs + (if p v then 1 else 0)
unfolding count
count-set p [] i old v e = ground (arith, e)
count-set p (b ∷ bs) zero old v e = ground (arith, e)
count-set p (b ∷ bs) (suc i) old v e = ground (arith, count-set p bs i old v e)

count-take :
    (p : Binding → Bool) (bs : List Binding) (n : ℕ) (last : Binding)
    → length bs ≡ suc n
    → get_elem? bs n ≡ some last
    → count p (take n bs) + (if p last then 1 else 0) ≡ count p bs
unfolding count
count-take p [] n last l e = ground (arith, e)
count-take p (b ∷ []) zero last l e = ground (arith, e)
count-take p (b ∷ b' ∷ bs) zero last l e = ground (arith, l)
count-take p (b ∷ bs) (suc n) last l e =
    ground (arith, count-take p bs n last (ground (arith, l)) e)

get_elem?-lt : (bs : List Binding) (i : ℕ) (b : Binding) → get_elem? bs i ≡ some b → i < length bs
get_elem?-lt [] i b e = ground (arith, e)
get_elem?-lt (b' ∷ bs) zero b e = omega arith
get_elem?-lt (b' ∷ bs) (suc i) b e = ground (arith, get_elem?-lt bs i b e)

there : (bs : List Binding) (n : ℕ) → n < length bs → get_elem? bs n ≢ none
there [] n h e = elim h [ ]
there (b ∷ bs) zero h e = ground (arith, e)
there (b ∷ bs) (suc n) h e = there bs n (omega arith) e

last_there : (bs : List Binding) → 0 < length bs → get_elem? bs (length bs - 1) ≢ none
last_there bs h gone = there bs (length bs - 1) (omega arith) gone

remove_slot-count :
    (p : Binding → Bool) (bs : List Binding) (i : ℕ) (b : Binding)
    → get_elem? bs i ≡ some b
    → count p (remove_slot bs i) + (if p b then 1 else 0) ≡ count p bs
unfolding remove_slot
remove_slot-count p bs i b e =
    let n = length bs - 1 in
    let room = get_elem?-lt bs i b e in
    option_ind (λ r. count p r + (if p b then 1 else 0) ≡ count p bs) (get_elem? bs n)
      (λ gone. absurd (last_there bs (omega (arith, room)) gone))
      λ last there.
        if_ind (λ r. count p (take n r) + (if p b then 1 else 0) ≡ count p bs) (suc i == length bs)
          (λ h.
            let same : i ≡ n = (ground (arith, h)) in
            count-take p bs n b (omega (arith, room)) (subst (λ j. get_elem? bs j ≡ some b) same e))
          λ h.
            let kept =
              get_elem?-set_ne bs last (λ q. absurd (ground (arith, h, q, room))) ∙ there in
            let shorter =
              count-take p (set bs i last) n last (length-set bs i last ∙ omega (arith, room))
                kept in
            omega (arith, shorter, count-set p bs i b last e)

-- Either no binding matches and the array stays as it is, or one that matches is removed, and every
-- other binding is still there as often as before: for any property, the number of bindings that
-- have it goes down by one if the removed one has it, and is otherwise the same.
pub remove_from-count :
    (p : Binding → Bool) (bs : List Binding) (modifiers value : ℕ)
    → (None bs modifiers value × (remove_from bs modifiers value ≡ bs))
      ⊎ ((b : Binding) × (matches modifiers value b ≡ true)
          × (count p (remove_from bs modifiers value) + (if p b then 1 else 0) ≡ count p bs))
unfolding remove_from Answer
remove_from-count p bs modifiers value = elim (Option-cases (find_binding bs modifiers value)) [
  | inl e ↦ inl (
    subst (Answer bs modifiers value) e (find_binding-Answer bs modifiers value),
    ground (arith, e),
  )
  | inr (i, e) ↦
      let (b, at, m) = First-matches bs modifiers value i (Answer-First bs modifiers value i e) in
      inr (
        b,
        m,
        subst
            (λ o.
              count p (elim o [ none ↦ bs | some i ↦ remove_slot bs i ]) + (if p b then 1 else 0)
              ≡ count p bs)
            (sym e) (remove_slot-count p bs i b at),
      )
]
