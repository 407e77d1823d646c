-- ===== src/River/Modifiers.antt =====
-- wm/river_wm.c: between river's modifier masks, which are those of X11, and swc's.
use Prim.Native.Nat.{bit_and, bit_or}
use neoswc.Prelude.{
  ℕ, ◌≡◌, refl, ◌<◌, Bool, true, false, not, arith, zero, suc, ◌==◌, ==_iff, if◌then◌else◌,
}

-- `modifiers & bit`, as a test
abbrev has : ℕ → ℕ → Bool
has modifiers bit = not (bit_and modifiers bit == 0)

abbrev add_if : Bool → ℕ → ℕ → ℕ
add_if b bit result = if b then bit_or result bit else result

-- `modifiers_to_swc`: shift 1, ctrl 4, mod1 8, mod3 32, mod4 64, mod5 128 on river's side;
-- ctrl 1, alt 2, logo 4, shift 8, mod3 16, mod5 32 on swc's.
pub modifiers_to_swc : ℕ → ℕ
modifiers_to_swc m = add_if (has m 128) 32 (
    add_if (has m 32) 16
      (add_if (has m 64) 4 (add_if (has m 8) 2 (add_if (has m 4) 1 (add_if (has m 1) 8 0)))))

-- `modifiers_to_river`
pub modifiers_to_river : ℕ → ℕ
modifiers_to_river m = add_if (has m 32) 128 (
    add_if (has m 16) 32
      (add_if (has m 4) 64 (add_if (has m 2) 8 (add_if (has m 1) 4 (add_if (has m 8) 1 0)))))

-- A table of masks: what `p` answers on the masks `n - 1`, ..., 0.
tabulate : (ℕ → Bool) → ℕ → Bool
tabulate p zero = true
tabulate p (suc n) = if p n then tabulate p n else false

look_up : (p : ℕ → Bool) (n mask : ℕ) → mask < n → tabulate p n ≡ true → p mask ≡ true
unfolding tabulate
look_up p zero mask small table = absurd (omega arith)
look_up p (suc n) mask small table = ground (arith, look_up p n mask)

swc_table : tabulate (λ m. modifiers_to_swc (modifiers_to_river m) == m) 64 ≡ true
unfolding tabulate modifiers_to_swc modifiers_to_river
swc_table = refl

river_table : tabulate (λ m. modifiers_to_river (modifiers_to_swc m) == bit_and m 237) 256 ≡ true
unfolding tabulate modifiers_to_swc modifiers_to_river
river_table = refl

-- Every mask of swc's six modifiers comes back from river's encoding unchanged, and every 8-bit
-- mask of river's from swc's with its two unassigned bits (2 and 16) cleared: no modifier is lost,
-- and no two are confused.
modifiers_roundtrip :
    (s r : ℕ)
    → s < 64
    → r < 256
    → (modifiers_to_swc (modifiers_to_river s) ≡ s)
      × (modifiers_to_river (modifiers_to_swc r) ≡ bit_and r 237)
modifiers_roundtrip s r hs hr =
    ((==_iff _ s).0 (look_up _ 64 s hs swc_table), (==_iff _ _).0 (look_up _ 256 r hr river_table))
