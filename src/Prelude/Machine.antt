-- ===== src/Prelude/Machine.antt =====
-- The conversions of C between int32_t, held as an integer, and uint32_t, held as a number.
-- A signed sum that leaves the range of int32_t is undefined in C, and is exact here.
use neoswc.Prelude.{ℕ, suc, ◌+◌, ◌-◌, ◌/◌, ◌%◌, ◌<◌, ◌≡◌, arith, ltb, if◌then◌else◌}
use neoswc.Prelude.Int.{ℤ, pos, negsuc, ltb_ℤ}

-- A signed value as uint32_t
unfoldable pub to_u32 : ℤ → ℕ
to_u32 (pos n) = n % 4294967296
to_u32 (negsuc n) = 4294967295 - n % 4294967296

-- The value of uint32_t as int32_t
unfoldable pub to_i32 : ℕ → ℤ
to_i32 n = if ltb n 2147483648 then pos n else negsuc (4294967295 - n)

-- A sum of uint32_t
abbrev pub add_u32 : ℕ → ℕ → ℕ
add_u32 a b = (a + b) % 4294967296

-- A difference of uint32_t
abbrev pub sub_u32 : ℕ → ℕ → ℕ
sub_u32 a b = (a + (4294967296 - b)) % 4294967296

-- `MIN` and `MAX` on uint32_t
abbrev pub min_u32 : ℕ → ℕ → ℕ
min_u32 a b = if ltb a b then a else b

abbrev pub max_u32 : ℕ → ℕ → ℕ
max_u32 a b = if ltb b a then a else b

-- `MIN` and `MAX` on int32_t
abbrev pub min_ℤ : ℤ → ℤ → ℤ
min_ℤ a b = if ltb_ℤ a b then a else b

abbrev pub max_ℤ : ℤ → ℤ → ℤ
max_ℤ a b = if ltb_ℤ b a then a else b

-- `/`, which rounds towards 0
unfoldable pub quot : ℤ → ℕ → ℤ
quot (pos n) d = pos (n / d)
quot (negsuc n) d = if ltb n (d - 1) then pos 0 else negsuc (suc n / d - 1)

pub to_i32_small : (n : ℕ) → n < 2147483648 → to_i32 n ≡ pos n
unfolding to_i32
to_i32_small n h = ground (arith, h)

pub to_u32_small : (n : ℕ) → n < 4294967296 → to_u32 (pos n) ≡ n
unfolding to_u32
to_u32_small n h = omega arith
