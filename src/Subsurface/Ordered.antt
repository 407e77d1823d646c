-- ===== src/Subsurface/Ordered.antt =====
-- libswc/subsurface.c: proofs about the order of the views after the commit of a parent.
use neoswc.Prelude.{
  ℕ, ◌≡◌, ◌≢◌, refl, ap, sym, subst, ◌∙◌, Bool, true, false, ◌&&◌, none, some, List, [], ◌∷◌, ◌++◌,
  arith, option_ind,
}
use neoswc.Stacking.{View, remove, beside, restack}
use neoswc.Subsurface.{Parent, Call, listed, unlink}
use neoswc.Subsurface.Commit.{
  order_committed, subsurface_parent_commit, view_of, restack_all, restack_children,
}
use neoswc.Subsurface.Siblings.{distinct, stack, listed-unlink}
use neoswc.Subsurface.Segments.{
  put_segment, unlink_all, place_all, place_all-segment, place_all-distinct, listed-put_segment,
  unlink_all-put_segment,
}
use neoswc.Subsurface.Sides.{
  all_listed, open_at, put_segment-both, stays_listed, under-distinct, over-disjoint,
  sides-distinct, all_listed-++, all_listed-reverse, all_listed-moved,
}
use mathlib.Core.List.{reverse, reverse-cons, reverse-append, append_assoc}

abbrev pub ids : List View → List ℕ
ids [] = []
ids (v ∷ vs) = v.id ∷ ids vs

ids-remove : (i : ℕ) (vs : List View) → ids (remove i vs) ≡ unlink i (ids vs)
unfolding remove unlink
ids-remove i [] = refl
ids-remove i (v ∷ vs) = ground (arith, ids-remove i vs)

ids-beside :
    (v : View) (r : ℕ) (over : Bool) (vs : List View)
    → ids (beside v r over vs) ≡ put_segment over r (v.id ∷ []) (ids vs)
unfolding beside
ids-beside v r over [] = refl
ids-beside v r over (w ∷ vs) = ground (arith, ids-beside v r over vs)

view_of-none : (i : ℕ) (vs : List View) → view_of i vs ≡ none → listed i (ids vs) ≡ false
unfolding view_of listed
view_of-none i [] h = refl
view_of-none i (v ∷ vs) h = ground (arith, h, view_of-none i vs)

view_of-some : (i : ℕ) (vs : List View) (v : View) → view_of i vs ≡ some v → v.id ≡ i
unfolding view_of
view_of-some i [] v h = ground (arith, h)
view_of-some i (w ∷ vs) v h = ground (arith, h, view_of-some i vs v)

all_listed-restacked :
    (over : Bool) (r c : ℕ) (cs vs : List ℕ)
    → listed c cs ≡ false
    → all_listed cs vs ≡ true
    → all_listed cs (put_segment over r (c ∷ []) (unlink c vs)) ≡ true
unfolding listed
all_listed-restacked over r c [] vs a h = refl
all_listed-restacked over r c (d ∷ cs) vs a h = ground (
  arith,
  a,
  h,
  all_listed-restacked over r c cs vs,
  listed-put_segment over r d (c ∷ []) (unlink c vs),
  listed-unlink d c vs,
)

ids-restack :
    (v : View) (r : ℕ) (over : Bool) (vs : List View)
    → v.id ≢ r
    → ids (restack vs v r over) ≡ put_segment over r (v.id ∷ []) (unlink v.id (ids vs))
unfolding restack
ids-restack v r over vs n =
    ground (arith, n, ids-beside v r over (remove v.id vs), ids-remove v.id vs)

-- Of the views the loop sees the numbers alone.
ids-restack_all :
    (over : Bool) (cs : List ℕ) (r : ℕ) (vs : List View)
    → distinct (r ∷ cs) ≡ true
    → all_listed cs (ids vs) ≡ true
    → ids (restack_all over cs r vs) ≡ place_all over cs r (ids vs)
unfolding restack_all listed
ids-restack_all over [] r vs d h = refl
ids-restack_all over (c ∷ cs) r vs d h =
    option_ind (λ (ws : List View). ids ws ≡ place_all over (c ∷ cs) r (ids vs)) (view_of c vs)
      (λ n. ground (arith, h, view_of-none c vs n))
      (λ v e.
        let same : v.id ≡ c = view_of-some c vs v e in
        let next = restack vs v r over in
        let step : ids next ≡ put_segment over r (c ∷ []) (unlink c (ids vs)) =
          ground (arith, same, d, ids-restack v r over vs) in
        ids-restack_all over cs c next (ground (arith, d)) (
          subst (λ (ws : List ℕ). all_listed cs ws ≡ true) (sym step)
            (all_listed-restacked over r c cs (ids vs) (ground (arith, d)) (ground (arith, h))))
        ∙ ap (λ (ws : List ℕ). place_all over cs c ws) step)

head_absent : (r : ℕ) (cs : List ℕ) → distinct (r ∷ cs) ≡ true → listed r cs ≡ false
head_absent r cs d = ground (arith, d)

-- Both loops, over their numbers
place_both :
    (r : ℕ) (under over vs : List ℕ)
    → distinct (under ++ r ∷ over) ≡ true
    → distinct vs ≡ true
    → listed r vs ≡ true
    → place_all true over r (place_all false (reverse under) r vs)
      ≡ open_at r (reverse (under ++ r ∷ over)) (unlink_all over (unlink_all (reverse under) vs))
place_both r under over vs d dv h =
    let low = unlink_all (reverse under) vs in
    let du = under-distinct r under over d in
    let dr = (sides-distinct r under over d).0 in
    let first : place_all false (reverse under) r vs ≡ put_segment false r (reverse under) low =
      place_all-segment false r (reverse under) vs du dv in
    let there : listed r (unlink_all over low) ≡ true =
      stays_listed r over low
        (stays_listed r (reverse under) vs h (head_absent r (reverse under) du))
        (head_absent r over dr) in
    let whole : reverse over ++ r ∷ reverse under ≡ reverse (under ++ r ∷ over) = sym (
      reverse-append under (r ∷ over)
      ∙ ap (λ (ws : List ℕ). ws ++ reverse under) (reverse-cons r over)
      ∙ append_assoc (reverse over) (r ∷ []) (reverse under)) in
    place_all-segment true r over (place_all false (reverse under) r vs) dr
      (place_all-distinct false r (reverse under) vs dv)
    ∙ ap (λ (ws : List ℕ). put_segment true r (reverse over) (unlink_all over ws)) first
    ∙ ap (λ (ws : List ℕ). put_segment true r (reverse over) ws)
        (unlink_all-put_segment false r over (reverse under) low (head_absent r over dr)
          (over-disjoint r under over d))
    ∙ put_segment-both r (reverse over) (reverse under) (unlink_all over low) there
    ∙ ap (λ (seg : List ℕ). open_at r seg (unlink_all over low)) whole

-- The views after both loops
ids-restack_both :
    (r : ℕ) (under over : List ℕ) (views : List View)
    → distinct (under ++ r ∷ over) ≡ true
    → distinct (ids views) ≡ true
    → all_listed (under ++ r ∷ over) (ids views) ≡ true
    → ids (restack_all true over r (restack_all false (reverse under) r views))
      ≡ open_at r
          (reverse (under ++ r ∷ over))
          (unlink_all over (unlink_all (reverse under) (ids views)))
ids-restack_both r under over views d dv h =
    let vs = ids views in
    let lower = restack_all false (reverse under) r views in
    let du = under-distinct r under over d in
    let split : all_listed under vs && (listed r vs && all_listed over vs) ≡ true =
      sym (all_listed-++ under (r ∷ over) vs) ∙ h in
    let first : ids lower ≡ place_all false (reverse under) r vs =
      ids-restack_all false (reverse under) r views du
        (all_listed-reverse under vs ∙ ground (arith, split)) in
    let kept : all_listed over (ids lower) ≡ true =
      subst (λ (ws : List ℕ). all_listed over ws ≡ true)
        (sym (first ∙ place_all-segment false r (reverse under) vs du dv))
        (all_listed-moved false r over (reverse under) (reverse under) vs (ground (arith, split))
          (over-disjoint r under over d)) in
    ids-restack_all true over r lower (sides-distinct r under over d).0 kept
    ∙ ap (λ (ws : List ℕ). place_all true over r ws) first
    ∙ place_both r under over vs d dv (ground (arith, split))

-- Once a parent commits, the views of it and of its children stand without a gap, in the order of the
-- stack that was requested last, at the place that the parent's view has among the others, whose
-- order stays. The parent and its children all have views, and no surface is there twice.
pub subsurface_parent_commit-ordered :
    (p : Parent) (views : List View) (calls : List Call)
    → distinct (stack p) ≡ true
    → distinct (ids views) ≡ true
    → all_listed (stack p) (ids views) ≡ true
    → let (p', views', _) = subsurface_parent_commit p views calls in
      let others = unlink_all p.pending_above (unlink_all (reverse p.pending_below) (ids views)) in
      (ids views' ≡ open_at p.surface (reverse (stack p)) others)
      × (p'.below ++ p'.surface ∷ p'.above ≡ stack p)
unfolding subsurface_parent_commit order_committed restack_children
subsurface_parent_commit-ordered p views calls d dv h =
    let r = p.surface in
    let vs = ids views in
    let result =
      open_at r (reverse (stack p))
        (unlink_all p.pending_above (unlink_all (reverse p.pending_below) vs)) in
    let there : listed r vs ≡ true =
      ground (arith, h, all_listed-++ p.pending_below (r ∷ p.pending_above) vs) in
    (
      option_ind (λ (ws : List View). ids ws ≡ result) (view_of r views)
          (λ n. ground (arith, there, view_of-none r views n))
          (λ _ _. ids-restack_both r p.pending_below p.pending_above views d dv h),
      refl,
    )
