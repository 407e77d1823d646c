-- ===== src/Stacking/Layers.antt =====
-- libswc/compositor.c: proofs about the order of the layers.
use neoswc.Prelude.{
  ℕ, ◌≡◌, Bool, true, false, not, ◌&&◌, List, [], ◌∷◌, ◌==◌, ltb, leb, arith, if◌then◌else◌, if_ind,
  subst,
}
use neoswc.Stacking.{View, remove, place, restack_view_for_layer, set_stack_layer}

==_eq : (a b : ℕ) → (a == b) ≡ true → a ≡ b
==_eq a b h = ground (arith, h)

-- The topmost view of a list is in no layer above this one.
abbrev pub bounded : ℕ → List View → Bool
bounded layer [] = true
bounded layer (v ∷ vs) = leb v.stack_layer layer

abbrev pub in_order : List View → Bool
in_order [] = true
in_order (v ∷ vs) = bounded v.stack_layer vs && in_order vs

-- Whether each view above the one with the number is in a layer above
abbrev pub top_of_layer : ℕ → ℕ → List View → Bool
top_of_layer i layer [] = false
top_of_layer i layer (v ∷ vs) =
    if v.id == i then v.stack_layer == layer else ltb layer v.stack_layer && top_of_layer i layer vs

-- The number is not one of a view of the list.
abbrev pub absent : ℕ → List View → Bool
absent i [] = true
absent i (v ∷ vs) = not (v.id == i) && absent i vs

remove-place :
    (v : View) (vs : List View) → absent v.id vs ≡ true → remove v.id (place v true vs) ≡ vs
unfolding place remove
remove-place v [] a = ground arith
remove-place v (w ∷ vs) a = ground (arith, a, remove-place v vs)

place-top :
    (v : View) (vs : List View)
    → absent v.id vs ≡ true
    → top_of_layer v.id v.stack_layer (place v true vs) ≡ true
unfolding place
place-top v [] a = ground arith
place-top v (w ∷ vs) a = ground (arith, a, place-top v vs)

place_keeps_order : (v : View) (vs : List View) → in_order (place v true vs) ≡ in_order vs
unfolding place
place_keeps_order v [] = ground arith
place_keeps_order v (w ∷ []) = ground arith
place_keeps_order v (w ∷ u ∷ vs) = ground (arith, place_keeps_order v (u ∷ vs))

-- A view that is put into a layer, its own or another, comes to stand in that layer, with only views
-- of the layers above it over it; the other views stay where they were among themselves; and all
-- views stand in the order of their layers exactly if the others did. The view was in the list once.
pub set_stack_layer-top :
    (views : List View) (v : View) (layer : ℕ)
    → absent v.id (remove v.id views) ≡ true
    → let views' = set_stack_layer views v layer true in
      (in_order views' ≡ in_order (remove v.id views))
      × (top_of_layer v.id layer views' ≡ true)
      × (remove v.id views' ≡ remove v.id views)
unfolding set_stack_layer restack_view_for_layer
set_stack_layer-top views v layer a =
    let others = remove v.id views in
    let v' : View = record v { stack_layer = layer } in
    if_ind
      (λ (views' : List View).
        (in_order views' ≡ in_order others)
        × (top_of_layer v.id layer views' ≡ true)
        × (remove v.id views' ≡ others))
      (v.stack_layer == layer)
      (λ same. (
        place_keeps_order v others,
        subst (λ l. top_of_layer v.id l (place v true others) ≡ true)
            (==_eq v.stack_layer layer same) (place-top v others a),
        remove-place v others a,
      ))
      λ _. (place_keeps_order v' others, place-top v' others a, remove-place v' others a)
