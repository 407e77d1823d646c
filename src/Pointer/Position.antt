-- ===== src/Pointer/Position.antt =====
-- libswc/pointer.c: where the pointer is.
use neoswc.Prelude.{none, some, List, [], ◌∷◌}
use neoswc.Prelude.Int.{ℤ, pos, ◌+ℤ◌, ◌-ℤ◌}
use neoswc.Prelude.Machine.{min_ℤ, max_ℤ, quot}
use neoswc.LayerShell.{Box}
use neoswc.Pointer.{Fixed, Surroundings, Pointer}

abbrev pub middle : ℤ → ℤ → ℤ
middle a b = a +ℤ quot (b -ℤ a) 2

abbrev pub clip : ℤ → ℤ → ℤ → ℤ
clip v first end = max_ℤ (min_ℤ v (end -ℤ pos 1)) first

module _ {R : Type 0} {S : Type 0} where
  abbrev pub move_to : Pointer R S → ℤ → ℤ → Pointer R S
  move_to p x y = record p { x = x; y = y }

  -- The end of `recover_position`, for the rectangles of the region
  abbrev pub recover_in : Fixed → Pointer R S → List Box → Pointer R S
  recover_in f p [] = move_to p (pos 0) (pos 0)
  recover_in f p (b ∷ bs) =
      move_to p (f.from_int (middle b.x1 b.x2)) (f.from_int (middle b.y1 b.y2))

  -- `recover_position`
  unfoldable pub recover_position : Surroundings R S → Pointer R S → Pointer R S
  recover_position env p = recover_in env.fixed p (env.regions.rectangles p.region)

  -- `clip_position`
  unfoldable pub clip_position : Surroundings R S → Pointer R S → ℤ → ℤ → Pointer R S
  clip_position env p fx fy =
      let f = env.fixed in
      let x = f.to_int fx in
      let y = f.to_int fy in
      elim (env.regions.contains_point p.region x y) [
        | some _ ↦ move_to p fx fy
        | none ↦ elim (env.regions.contains_point p.region (f.to_int p.x) (f.to_int p.y)) [
          | none ↦ recover_position env p
          | some box ↦
              move_to p (f.from_int (clip x box.x1 box.x2)) (f.from_int (clip y box.y1 box.y2))
        ]
      ]

  -- `pointer_set_region`
  abbrev pub pointer_set_region : Surroundings R S → Pointer R S → R → Pointer R S
  pointer_set_region env p region = clip_position env (record p { region = region }) p.x p.y

  -- `update_cursor`
  abbrev pub update_cursor : Surroundings R S → Pointer R S → Pointer R S
  update_cursor env p = record p {
    cursor_x = env.fixed.to_int p.x -ℤ p.hotspot_x;
    cursor_y = env.fixed.to_int p.y -ℤ p.hotspot_y;
  }
