-- ===== src/Screen/Usable.antt =====
-- libswc/screen.c: proofs about the usable geometry of a screen, and what pixman is taken to do.
use neoswc.Prelude.{
  ℕ, ◌+◌, ◌-◌, ◌≤◌, ◌≡◌, refl, sym, ap, subst, ◌∙◌, Bool, true, ◌&&◌, List, [], ◌∷◌, arith,
  if◌then◌else◌,
}
use neoswc.Prelude.Int.{◌-ℤ◌, ltb_ℤ}
use neoswc.Prelude.Machine.{to_u32}
use neoswc.Window.{Rectangle}
use neoswc.LayerShell.{Box}
use neoswc.LayerShell.Configure.{eqb_ℤ-eq}
use neoswc.Screen.{
  set_usable_geometry, Pixman, Modifier, Screen, modify, total_usable,
  screen_update_usable_geometry, of_box, same_rectangle, usable_geometry_changed,
}
use neoswc.Screen.Zones.{
  Strips, Fits, strips, all_strips, no_strips, join, rest, screen_at, meet, meet-rest, modify-rest,
}

-- A box with points in it
abbrev pub good : Box → Bool
good b = ltb_ℤ b.x1 b.x2 && ltb_ℤ b.y1 b.y2

-- pixman on regions of one box: what pixman_region32_init_rect, pixman_region32_reset,
-- pixman_region32_intersect and pixman_region32_extents promise of them
pub record PixmanLaws {R : Type 0} (pixman : Pixman R) : Type 0 where
  pub region : Box → R
  pub init_rect_box :
      (x y w h : ℕ)
      → good (rest x y w h no_strips) ≡ true
      → pixman.init_rect (screen_at x y w h) ≡ region (rest x y w h no_strips)
  pub reset_box : (r : R) (b : Box) → good b ≡ true → pixman.reset r b ≡ region b
  pub intersect_boxes :
      (a b : Box)
      → good (meet a b) ≡ true
      → pixman.intersect (region a) (region b) ≡ region (meet a b)
  pub extents_box : (b : Box) → good b ≡ true → pixman.extents (region b) ≡ b

Fits-mono :
    (x y w h : ℕ) (a b : Strips)
    → (a.top ≤ b.top) × (a.bottom ≤ b.bottom) × (a.left ≤ b.left) × (a.right ≤ b.right)
    → Fits x y w h b
    → Fits x y w h a
Fits-mono x y w h a b le f = record {
  wide = f.wide;
  high = f.high;
  across = ground (arith, le, f.across);
  down = ground (arith, le, f.down);
}

all_strips-grows :
    (a : Strips) (ms : List Modifier)
    → let b = all_strips a ms in
      (a.top ≤ b.top) × (a.bottom ≤ b.bottom) × (a.left ≤ b.left) × (a.right ≤ b.right)
all_strips-grows a [] = omega arith
all_strips-grows a (m ∷ ms) = ground (arith, all_strips-grows (join a (strips m)) ms)

good-rest : (x y w h : ℕ) (a : Strips) → Fits x y w h a → good (rest x y w h a) ≡ true
good-rest x y w h a f = ground (arith, f.across, f.down)

module _ {R : Type 0} (pixman : Pixman R) (laws : PixmanLaws pixman) where
  total_usable-rest :
      (x y w h : ℕ) (ms : List Modifier) (a : Strips) (usable : R)
      → Fits x y w h (all_strips a ms)
      → total_usable pixman (screen_at x y w h) ms usable (laws.region (rest x y w h a))
        ≡ laws.region (rest x y w h (all_strips a ms))
  unfolding total_usable
  total_usable-rest x y w h [] a usable f = refl
  total_usable-rest x y w h (m ∷ ms) a usable f =
      let b = join a (strips m) in
      let usable' = pixman.reset usable (modify m (screen_at x y w h)) in
      let fits_b = Fits-mono x y w h b (all_strips b ms) (all_strips-grows b ms) f in
      let fits_m = Fits-mono x y w h (strips m) b (ground arith) fits_b in
      let met = meet-rest x y w h a (strips m) fits_b in
      let left : usable' ≡ laws.region (rest x y w h (strips m)) =
        ap (pixman.reset usable) (modify-rest x y w h m fits_m)
        ∙ laws.reset_box usable (rest x y w h (strips m)) (good-rest x y w h (strips m) fits_m) in
      ap (total_usable pixman (screen_at x y w h) ms usable') (
        ap (pixman.intersect (laws.region (rest x y w h a))) left
        ∙ laws.intersect_boxes (rest x y w h a) (rest x y w h (strips m))
            (ap good met ∙ good-rest x y w h b fits_b)
        ∙ ap laws.region met)
      ∙ total_usable-rest x y w h ms b usable' f

of_box-rest :
    (x y w h : ℕ) (z : Strips)
    → Fits x y w h z
    → of_box (rest x y w h z)
      ≡ screen_at (x + z.left) (y + z.top) (w - (z.left + z.right)) (h - (z.top + z.bottom))
unfolding to_u32 ◌-ℤ◌
of_box-rest x y w h z f = ground (arith, f.across, f.down, f.wide, f.high)

same_rectangle-eq : (a b : Rectangle) → same_rectangle a b ≡ true → a ≡ b
same_rectangle-eq a b h = ground (arith, h, eqb_ℤ-eq a.x b.x, eqb_ℤ-eq a.y b.y)

-- What is told of a change to an area
abbrev pub Reported : Rectangle → Screen → Screen → Type 0
Reported area s s' =
    (s'.usable_geometry ≡ area)
    × (s'.calls ≡ (
        if same_rectangle area s.usable_geometry
        then s.calls
        else usable_geometry_changed ∷ s.calls))

set_usable_geometry-Reported :
    (area : Rectangle) (s : Screen) → Reported area s (set_usable_geometry area s)
set_usable_geometry-Reported area s = ground (arith, same_rectangle-eq area s.usable_geometry)

module _ {R : Type 0} (pixman : Pixman R) (laws : PixmanLaws pixman) where
  extents-rest :
      (x y w h : ℕ) (ms : List Modifier)
      → Fits x y w h (all_strips no_strips ms)
      → let geom = screen_at x y w h in
        pixman.extents (total_usable pixman geom ms pixman.init (pixman.init_rect geom))
        ≡ rest x y w h (all_strips no_strips ms)
  extents-rest x y w h ms f =
      let z = all_strips no_strips ms in
      let none_fit = Fits-mono x y w h no_strips z (all_strips-grows no_strips ms) f in
      ap (λ r. pixman.extents (total_usable pixman (screen_at x y w h) ms pixman.init r))
        (laws.init_rect_box x y w h (good-rest x y w h no_strips none_fit))
      ∙ ap pixman.extents (total_usable-rest pixman laws x y w h ms no_strips pixman.init f)
      ∙ laws.extents_box (rest x y w h z) (good-rest x y w h z f)

  -- However many layer surfaces and panels stand on a screen, and in whatever order, the usable
  -- geometry of the screen is the screen less, at each edge, the widest strip that one of them keeps
  -- free there; and the screen's handler is called exactly when that changes the usable geometry.
  -- The screen lies at non-negative coordinates within int32_t, and the strips leave something of it.
  pub screen_update_usable_geometry-strips :
      (x y w h : ℕ) (s : Screen)
      → s.geometry ≡ screen_at x y w h
      → Fits x y w h (all_strips no_strips s.modifiers)
      → let z = all_strips no_strips s.modifiers in
        let area =
          screen_at (x + z.left) (y + z.top) (w - (z.left + z.right)) (h - (z.top + z.bottom)) in
        let s' = screen_update_usable_geometry pixman s in Reported area s s'
  unfolding screen_update_usable_geometry
  screen_update_usable_geometry-strips x y w h s e f =
      let z = all_strips no_strips s.modifiers in
      let area =
        screen_at (x + z.left) (y + z.top) (w - (z.left + z.right)) (h - (z.top + z.bottom)) in
      let found : of_box (
            pixman.extents (
              total_usable pixman s.geometry s.modifiers pixman.init (pixman.init_rect s.geometry)))
          ≡ area =
        ap
          (λ geom. of_box (
            pixman.extents
              (total_usable pixman geom s.modifiers pixman.init (pixman.init_rect geom))))
          e
        ∙ ap of_box (extents-rest x y w h s.modifiers f)
        ∙ of_box-rest x y w h z f in
      subst (λ r. Reported area s (set_usable_geometry r s)) (sym found)
        (set_usable_geometry-Reported area s)
