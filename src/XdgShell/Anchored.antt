-- ===== src/XdgShell/Anchored.antt =====
-- libswc/xdg_shell.c: proofs about the place of a popup.
use neoswc.Prelude.{ℕ, ◌/◌, ◌≤◌, ◌≡◌, refl, sym, ap, ◌∙◌, arith}
use neoswc.Prelude.Int.{ℤ, pos, negsuc, pos_part, neg_part, ◌+ℤ◌, +ℤ_parts, eq_of_parts}
use neoswc.Prelude.Machine.{to_u32, to_i32, sub_u32, quot}
use neoswc.XdgShell.Positioner.{
  Positioner, Side, start, middle, end, side_x, side_y, add_anchor, sub_gravity, calculate_position,
}

-- How far a side is along an axis of a rectangle
abbrev pub along : Side → ℕ → ℕ
along start size = 0
along middle size = size / 2
along end size = size

abbrev pub opposite : Side → Side
opposite start = end
opposite middle = middle
opposite end = start

-- A value that is 2^30 at most, on either side of 0
abbrev pub Small : ℤ → Type 0
Small z = (pos_part z ≤ 1073741824) × (neg_part z ≤ 1073741824)

sub_exact :
    (v : ℤ) (size : ℕ)
    → Small v
    → size ≤ 1073741824
    → to_i32 (sub_u32 (to_u32 v) size) +ℤ pos size ≡ v
unfolding to_u32 to_i32 ◌+ℤ◌
sub_exact (pos n) size (a, b) c = ground (arith, a, c)
sub_exact (negsuc n) size (a, b) c = ground (arith, b, c)

sub_gravity_lem :
    (s : Side) (v : ℤ) (size : ℕ)
    → Small v
    → size ≤ 1073741824
    → sub_gravity s v size +ℤ pos (along (opposite s) size) ≡ v
unfolding sub_gravity
sub_gravity_lem start v size a c = sub_exact v size a c
sub_gravity_lem middle v size a c = sub_exact v (size / 2) a (omega arith)
sub_gravity_lem end v size a c = eq_of_parts (v +ℤ pos 0) v (ground (arith, +ℤ_parts v (pos 0)))

-- The point that the positioner names on the anchor rectangle, moved by the offset, on one axis
abbrev pub target : Side → ℤ → ℤ → ℤ → ℤ
target s offset origin size = offset +ℤ (origin +ℤ pos (along s (pos_part size)))

plus_zero : (a : ℤ) → a +ℤ pos 0 ≡ a
plus_zero a = eq_of_parts (a +ℤ pos 0) a (ground (arith, +ℤ_parts a (pos 0)))

add_anchor_lem :
    (s : Side) (v origin size : ℤ)
    → neg_part size ≡ 0
    → add_anchor s v origin size ≡ target s v origin size
unfolding add_anchor quot
add_anchor_lem start v origin size h = ap (λ o. v +ℤ o) (sym (plus_zero origin))
add_anchor_lem middle v origin (pos n) h = refl
add_anchor_lem end v origin (pos n) h = refl
add_anchor_lem middle v origin (negsuc n) h = ground (arith, h)
add_anchor_lem end v origin (negsuc n) h = ground (arith, h)

-- What the requests leave: sizes that are positive; and all is within 2^30.
pub record Sound (p : Positioner) : Type 0 where
  pub width_pos : neg_part p.width ≡ 0
  pub width_small : pos_part p.width ≤ 1073741824
  pub height_pos : neg_part p.height ≡ 0
  pub height_small : pos_part p.height ≤ 1073741824
  pub anchor_width_pos : neg_part p.anchor_width ≡ 0
  pub anchor_height_pos : neg_part p.anchor_height ≡ 0
  pub target_x : Small (target (side_x p.anchor) p.offset_x p.anchor_x p.anchor_width)
  pub target_y : Small (target (side_y p.anchor) p.offset_y p.anchor_y p.anchor_height)

size_u32 : (z : ℤ) → neg_part z ≡ 0 → pos_part z ≤ 1073741824 → to_u32 z ≡ pos_part z
unfolding to_u32
size_u32 (pos n) a b = omega arith
size_u32 (negsuc n) a b = omega arith

-- One axis: the side of the popup that its gravity points away from is at the target.
axis_lem :
    (g s : Side) (size offset origin anchor_size : ℤ)
    → neg_part size ≡ 0
    → pos_part size ≤ 1073741824
    → neg_part anchor_size ≡ 0
    → Small (target s offset origin anchor_size)
    → sub_gravity g (add_anchor s offset origin anchor_size) (to_u32 size)
        +ℤ pos (along (opposite g) (to_u32 size))
      ≡ target s offset origin anchor_size
axis_lem g s size offset origin anchor_size a b c d =
    ap (λ v. sub_gravity g v (to_u32 size) +ℤ pos (along (opposite g) (to_u32 size)))
      (add_anchor_lem s offset origin anchor_size c)
    ∙ sub_gravity_lem g (target s offset origin anchor_size) (to_u32 size) d
        (ground (arith, size_u32 size a b, b))

-- For every anchor and every gravity, a popup has the size of its positioner, and it hangs where
-- these say: the point of the anchor rectangle that the anchor names, moved by the offset, is the
-- point of the popup opposite to its gravity, on both axes. Sizes are positive, and all is within
-- 2^30.
pub calculate_position-meets :
    (p : Positioner)
    → Sound p
    → let r = calculate_position p in
      (r.width ≡ pos_part p.width)
      × (r.height ≡ pos_part p.height)
      × (r.x +ℤ pos (along (opposite (side_x p.gravity)) r.width)
          ≡ target (side_x p.anchor) p.offset_x p.anchor_x p.anchor_width)
      × (r.y +ℤ pos (along (opposite (side_y p.gravity)) r.height)
          ≡ target (side_y p.anchor) p.offset_y p.anchor_y p.anchor_height)
unfolding calculate_position
calculate_position-meets p v = (
  size_u32 p.width v.width_pos v.width_small,
  size_u32 p.height v.height_pos v.height_small,
  axis_lem (side_x p.gravity) (side_x p.anchor) p.width p.offset_x p.anchor_x p.anchor_width
      v.width_pos v.width_small v.anchor_width_pos v.target_x,
  axis_lem (side_y p.gravity) (side_y p.anchor) p.height p.offset_y p.anchor_y p.anchor_height
      v.height_pos v.height_small v.anchor_height_pos v.target_y,
)
