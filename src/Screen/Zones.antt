-- ===== src/Screen/Zones.antt =====
-- libswc/screen.c, layer_shell.c and panel.c: the strips that panels and layer surfaces keep free.
use neoswc.Prelude.{ℕ, ◌+◌, ◌-◌, ◌<◌, ◌≡◌, not, List, [], ◌∷◌, ◌==◌, ltb, arith, if◌then◌else◌}
use neoswc.Prelude.Int.{ℤ, pos, negsuc, pos_part, ◌+ℤ◌, ltb_ℤ}
use neoswc.Prelude.Machine.{
  to_u32, to_i32, add_u32, sub_u32, min_u32, max_u32, max_ℤ, min_ℤ, to_u32_small,
}
use neoswc.Window.{Rectangle}
use neoswc.LayerShell.{Box, LayerSurface, whole, shrink, exclusive_edge, exclusive_size}
use neoswc.LayerShell
use neoswc.Panel.{Panel}
use neoswc.Panel
use neoswc.Screen.{Modifier, of_layer_surface, of_panel, modify}

-- The strips at the four edges of a screen
pub record Strips : Type 0 where
  pub top : ℕ
  pub bottom : ℕ
  pub left : ℕ
  pub right : ℕ

abbrev pub max : ℕ → ℕ → ℕ
max a b = if ltb a b then b else a

abbrev pub no_strips : Strips
no_strips = record { top = 0; bottom = 0; left = 0; right = 0 }

abbrev pub join : Strips → Strips → Strips
join a b = record {
  top = max a.top b.top;
  bottom = max a.bottom b.bottom;
  left = max a.left b.left;
  right = max a.right b.right;
}

-- A strip at one edge, in the numbers of the layer shell and of the panels
abbrev pub layer_strip : ℕ → ℕ → Strips
layer_strip edge size = record {
  top = if edge == 1 then size else 0;
  bottom = if edge == 2 then size else 0;
  left = if edge == 4 then size else 0;
  right = if edge == 8 then size else 0;
}

abbrev pub panel_strip : ℕ → ℕ → Strips
panel_strip edge size = record {
  top = if edge == 0 then size else 0;
  bottom = if edge == 1 then size else 0;
  left = if edge == 2 then size else 0;
  right = if edge == 3 then size else 0;
}

-- What one layer surface or panel keeps free: nothing if it is not mapped
abbrev pub strips : Modifier → Strips
strips (of_layer_surface s) =
    if s.mapped
    then layer_strip (exclusive_edge s.current) (pos_part (exclusive_size s))
    else no_strips
strips (of_panel p) = panel_strip p.edge p.strut_size

abbrev pub all_strips : Strips → List Modifier → Strips
all_strips acc [] = acc
all_strips acc (m ∷ ms) = all_strips (join acc (strips m)) ms

-- The screen at (x, y) within `int32_t`, and the box that strips leave of it
abbrev pub screen_at : ℕ → ℕ → ℕ → ℕ → Rectangle
screen_at x y w h = record { x = pos x; y = pos y; width = w; height = h }

abbrev pub rest : ℕ → ℕ → ℕ → ℕ → Strips → Box
rest x y w h z = record {
  x1 = pos (x + z.left);
  y1 = pos (y + z.top);
  x2 = pos (x + w - z.right);
  y2 = pos (y + h - z.bottom);
}

pub record Fits (x y w h : ℕ) (z : Strips) : Type 0 where
  pub wide : x + w < 2147483648
  pub high : y + h < 2147483648
  pub across : z.left + z.right < w
  pub down : z.top + z.bottom < h

abbrev pub meet : Box → Box → Box
meet a b = record {
  x1 = max_ℤ a.x1 b.x1;
  y1 = max_ℤ a.y1 b.y1;
  x2 = min_ℤ a.x2 b.x2;
  y2 = min_ℤ a.y2 b.y2;
}

pub meet-rest :
    (x y w h : ℕ) (a b : Strips)
    → Fits x y w h (join a b)
    → meet (rest x y w h a) (rest x y w h b) ≡ rest x y w h (join a b)
meet-rest x y w h a b f = ground (arith, f.across, f.down)

whole-rest :
    (x y w h : ℕ)
    → x + w < 2147483648
    → y + h < 2147483648
    → whole (screen_at x y w h) ≡ rest x y w h no_strips
unfolding to_u32 to_i32
whole-rest x y w h a b = ground (arith, a, b)

-- One side at a time
start_ℤ : (x size : ℕ) → max_ℤ (pos x) (pos x +ℤ pos size) ≡ pos (x + size)
unfolding ◌+ℤ◌
start_ℤ x size = ground arith

end_u32 :
    (x w size : ℕ)
    → x + w < 2147483648
    → size < w
    → to_i32 (
        min_u32
          (to_u32 (to_i32 (add_u32 (to_u32 (pos x)) w)))
          (sub_u32 (add_u32 (to_u32 (pos x)) w) size))
      ≡ pos (x + w - size)
unfolding to_u32 to_i32
end_u32 x w size a b = ground (arith, a, b)

start_u32 :
    (x w size : ℕ)
    → x + w < 2147483648
    → size < w
    → to_i32 (max_u32 (to_u32 (pos x)) (add_u32 (to_u32 (pos x)) size)) ≡ pos (x + size)
unfolding to_u32 to_i32
start_u32 x w size a b = ground (arith, a, b)

shrink-rest :
    (x y w h edge size : ℕ)
    → Fits x y w h (layer_strip edge size)
    → shrink (screen_at x y w h) edge (pos size) ≡ rest x y w h (layer_strip edge size)
unfolding shrink
shrink-rest x y w h edge size f =
    let full = whole-rest x y w h f.wide f.high in
    ground (
      arith,
      full,
      to_u32_small size,
      start_ℤ x size,
      start_ℤ y size,
      end_u32 x w size f.wide,
      end_u32 y h size f.high,
      f.across,
      f.down,
    )

zone-rest :
    (x y w h edge : ℕ) (size : ℤ)
    → Fits x y w h (layer_strip edge (pos_part size))
    → (if not (ltb_ℤ (pos 0) size)
        then whole (screen_at x y w h)
        else shrink (screen_at x y w h) edge size)
      ≡ rest x y w h (layer_strip edge (pos_part size))
zone-rest x y w h edge (pos n) f =
    ground (arith, shrink-rest x y w h edge n f, whole-rest x y w h f.wide f.high)
zone-rest x y w h edge (negsuc n) f = ground (arith, whole-rest x y w h f.wide f.high)

layer_surface-rest :
    (x y w h : ℕ) (s : LayerSurface)
    → Fits x y w h (strips (of_layer_surface s))
    → LayerShell.modify s (screen_at x y w h) ≡ rest x y w h (strips (of_layer_surface s))
unfolding LayerShell.modify
layer_surface-rest x y w h s f = ground (
  arith,
  zone-rest x y w h (exclusive_edge s.current) (exclusive_size s),
  whole-rest x y w h f.wide f.high,
  f,
)

panel-rest :
    (x y w h : ℕ) (p : Panel)
    → Fits x y w h (strips (of_panel p))
    → Panel.modify p (screen_at x y w h) ≡ rest x y w h (strips (of_panel p))
unfolding Panel.modify
panel-rest x y w h p f =
    let full = whole-rest x y w h f.wide f.high in
    ground (
      arith,
      full,
      start_u32 x w p.strut_size f.wide,
      start_u32 y h p.strut_size f.high,
      end_u32 x w p.strut_size f.wide,
      end_u32 y h p.strut_size f.high,
      f.across,
      f.down,
    )

-- What a layer surface or a panel resets the usable region to is the screen without its strip.
pub modify-rest :
    (x y w h : ℕ) (m : Modifier)
    → Fits x y w h (strips m)
    → modify m (screen_at x y w h) ≡ rest x y w h (strips m)
unfolding modify
modify-rest x y w h (of_layer_surface s) f = layer_surface-rest x y w h s f
modify-rest x y w h (of_panel p) f = panel-rest x y w h p f
