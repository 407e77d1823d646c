-- ===== src/Pointer/Inside.antt =====
-- libswc/pointer.c: proofs about the position of the pointer, and what libwayland and pixman are
-- taken to do.
use neoswc.Prelude.{
  ℕ, ◌+◌, ◌-◌, ◌/◌, ◌≡◌, ◌≢◌, not, refl, sym, ap, ◌∙◌, subst, Bool, true, ◌&&◌, none, some, List,
  ◌∷◌, arith, option_ind,
}
use neoswc.Prelude.Int.{ℤ, pos, pos_part, neg_part, ◌+ℤ◌, ◌-ℤ◌, ltb_ℤ, +ℤ_parts, -ℤ_parts}
use neoswc.Prelude.Machine.{quot}
use neoswc.LayerShell.{Box}
use neoswc.Pointer.{Fixed, Regions, Surroundings, Pointer}
use neoswc.Pointer.Position.{middle, clip, move_to, recover_in, recover_position, clip_position}

abbrev pub within : ℤ → ℤ → ℤ → Bool
within v first end = not (ltb_ℤ v first) && ltb_ℤ v end

abbrev pub in_box : Box → ℤ → ℤ → Bool
in_box b x y = within x b.x1 b.x2 && within y b.y1 b.y2

-- What libwayland says of whole fixed-point numbers
pub record FixedLaws (f : Fixed) : Type 0 where
  pub to_int-from_int : (i : ℤ) → f.to_int (f.from_int i) ≡ i

-- What pixman says of a region: the box that is found holds the point and lies in the region, and
-- each of the rectangles has points, which are all in the region.
pub record RegionLaws {R : Type 0} (regions : Regions R) : Type 0 where
  pub box_found :
      (r : R) (x y : ℤ) (b : Box) → regions.contains_point r x y ≡ some b → in_box b x y ≡ true
  pub box_inside :
      (r : R) (x y : ℤ) (b : Box)
      → regions.contains_point r x y ≡ some b
      → (x' y' : ℤ) → in_box b x' y' ≡ true
      → regions.contains_point r x' y' ≢ none
  pub rectangle_inside :
      (r : R) (b : Box) (bs : List Box)
      → regions.rectangles r ≡ b ∷ bs
      → (ltb_ℤ b.x1 b.x2 ≡ true)
        × (ltb_ℤ b.y1 b.y2 ≡ true)
        × ((x y : ℤ) → in_box b x y ≡ true → regions.contains_point r x y ≢ none)

quot_half : (n : ℕ) → quot (pos n) 2 ≡ pos (n / 2)
unfolding quot
quot_half n = refl

difference :
    (a b : ℤ)
    → ltb_ℤ a b ≡ true
    → b -ℤ a ≡ pos (pos_part b + neg_part a - (pos_part a + neg_part b))
unfolding ◌-ℤ◌
difference a b h = ground (arith, h)

middle-within : (a b : ℤ) → ltb_ℤ a b ≡ true → within (middle a b) a b ≡ true
middle-within a b h =
    let n = pos_part b + neg_part a - (pos_part a + neg_part b) in
    let half : quot (b -ℤ a) 2 ≡ pos (n / 2) =
      ap (λ d. quot d 2) (difference a b h) ∙ quot_half n in
    let sum = +ℤ_parts a (pos (n / 2)) in
    let there : within (a +ℤ pos (n / 2)) a b ≡ true = ground (arith, h, sum) in
    ap (λ d. within (a +ℤ d) a b) half ∙ there

clip-within : (v a b w : ℤ) → within w a b ≡ true → within (clip v a b) a b ≡ true
clip-within v a b w h = ground (arith, h, -ℤ_parts b (pos 1))

some-none : {A : Type 0} (a : A) → some a ≢ none
some-none a h = ground (arith, h)

module _ {R : Type 0} {S : Type 0} (env : Surroundings R S) where
  -- The pointer is on a screen.
  abbrev pub OnScreen : Pointer R S → Type 0
  OnScreen p =
      env.regions.contains_point p.region (env.fixed.to_int p.x) (env.fixed.to_int p.y) ≢ none

  module _ (fixed : FixedLaws env.fixed) (laws : RegionLaws env.regions) where
    whole-OnScreen :
        (p : Pointer R S) (x y : ℤ)
        → env.regions.contains_point p.region x y ≢ none
        → OnScreen (move_to p (env.fixed.from_int x) (env.fixed.from_int y))
    whole-OnScreen p x y there =
        subst
          (λ i.
            env.regions.contains_point p.region i (env.fixed.to_int (env.fixed.from_int y)) ≢ none)
          (sym (fixed.to_int-from_int x))
          (subst (λ j. env.regions.contains_point p.region x j ≢ none)
            (sym (fixed.to_int-from_int y)) there)

    recover-OnScreen :
        (p : Pointer R S) (b : Box) (bs : List Box)
        → env.regions.rectangles p.region ≡ b ∷ bs
        → OnScreen (recover_position env p)
    unfolding recover_position
    recover-OnScreen p b bs e =
        let (wide, high, inside) = laws.rectangle_inside p.region b bs e in
        let x = middle b.x1 b.x2 in
        let y = middle b.y1 b.y2 in
        let held : in_box b x y ≡ true =
          ground (arith, middle-within b.x1 b.x2 wide, middle-within b.y1 b.y2 high) in
        subst (λ l. OnScreen (recover_in env.fixed p l)) (sym e)
          (whole-OnScreen p x y (inside x y held))

    -- Wherever the pointer was and wherever it is moved to, on a screen or off it, it is on a screen
    -- afterwards, as long as there is one: clipped to the rectangle that it was in, or put back in
    -- the middle of the first.
    pub clip_position-OnScreen :
        (p : Pointer R S) (fx fy : ℤ) (b : Box) (bs : List Box)
        → env.regions.rectangles p.region ≡ b ∷ bs
        → OnScreen (clip_position env p fx fy)
    unfolding clip_position
    clip_position-OnScreen p fx fy b bs e =
        let f = env.fixed in
        let find = env.regions.contains_point p.region in
        let x = f.to_int fx in
        let y = f.to_int fy in
        option_ind OnScreen (find x y)
          (λ off.
            option_ind OnScreen (find (f.to_int p.x) (f.to_int p.y))
              (λ _. recover-OnScreen p b bs e)
              λ box found.
                let last = laws.box_found p.region (f.to_int p.x) (f.to_int p.y) box found in
                let cx = clip x box.x1 box.x2 in
                let cy = clip y box.y1 box.y2 in
                let held : in_box box cx cy ≡ true = ground (
                  arith,
                  last,
                  clip-within x box.x1 box.x2 (f.to_int p.x),
                  clip-within y box.y1 box.y2 (f.to_int p.y),
                ) in
                whole-OnScreen p cx cy
                  (laws.box_inside p.region (f.to_int p.x) (f.to_int p.y) box found cx cy held))
          λ box found. subst (λ o. o ≢ none) (sym found) (some-none box)
