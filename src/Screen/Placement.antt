-- ===== src/Screen/Placement.antt =====
-- libswc/screen.c: proofs about the place of a new screen.
use neoswc.Prelude.{◌+◌, ◌<◌, ◌≡◌, List, [], ◌∷◌}
use neoswc.Prelude.Int.{pos_part, neg_part}
use neoswc.Screen.{Screen}

-- Screens at non-negative coordinates within int32_t
abbrev pub Ranged : List Screen → Type 0
Ranged [] = Unit
Ranged (s ∷ ss) =
    (neg_part s.geometry.x ≡ 0)
    × (pos_part s.geometry.x + s.geometry.width < 2147483648)
    × Ranged ss
