-- ===== src/Cohort/Present.antt =====
-- `present_cohort`: what reaches the screen when the cohort is shown.
use neoswc.Prelude.{ℕ, ◌≡◌, true, false, List, [], ◌∷◌, arith, if◌then◌else◌}
use neoswc.Prelude.Int.{ℤ}
use neoswc.Window.{
  Window, surface_release_render, handle_attach, view_attach, flush, present_window,
}
use neoswc.Cohort.{Cohort, put, each, transaction_present, present_cohort}
use neoswc.Cohort.Members.{mem, each-present}
use neoswc.Cohort.Invariant.{Inv}

-- Where a window's view goes when its pending move is applied.
abbrev pub destination_x : Window → ℤ
destination_x w = if w.move_pending then w.move_x else w.geometry.x

abbrev pub destination_y : Window → ℤ
destination_y w = if w.move_pending then w.move_y else w.geometry.y

-- The window's view stands where it was asked to go.
abbrev pub Landed : Window → Window → Type 0
Landed w w' =
    (w'.move_pending ≡ false)
    × (w'.geometry.x ≡ destination_x w)
    × (w'.geometry.y ≡ destination_y w)

present_window-Landed :
    (w : Window)
    → w.transaction_acked ≡ true
    → ((present_window w).transaction_acked ≡ true) × Landed w (present_window w)
unfolding present_window surface_release_render view_attach handle_attach flush
present_window-Landed w a = ground arith

each-present_acked :
    (i : ℕ) (is : List ℕ) (f : ℕ → Window)
    → (f i).transaction_acked ≡ true
    → (f i).move_pending ≡ false
    → Landed (f i) (each (λ _. present_window) is f i)
unfolding each
each-present_acked i [] f a m = ground arith
each-present_acked i (k ∷ is) f a m =
    ground (
      arith,
      present_window-Landed (f i) a,
      each-present_acked i is (put f k (present_window (f k))),
    )

each-present-Landed :
    (i : ℕ) (is : List ℕ) (f : ℕ → Window)
    → mem i is ≡ true
    → (f i).transaction_acked ≡ true
    → Landed (f i) (each (λ _. present_window) is f i)
unfolding each
each-present-Landed i [] f m a = cc
each-present-Landed i (k ∷ is) f m a = ground (
  arith,
  present_window-Landed (f i) a,
  each-present_acked i is (put f k (present_window (f k))),
  each-present-Landed i is (put f k (present_window (f k))),
)

-- After `swc_transaction_present` on a cohort that satisfies the invariant, every window that
-- awaited present and had answered stands where it was asked to go, with no move left pending; and
-- no surface is held back any more, whether its window had answered or not, save those of the
-- members of an open cohort.
pub transaction_present_lands :
    (c : Cohort) (i : ℕ)
    → Inv c
    → let c' = transaction_present c in
      (mem i c.parked ≡ true
        → (c.window i).transaction_acked ≡ true
        → Landed (c.window i) (c'.window i))
      × ((c'.window i).held ≡ true → mem i c'.members ≡ true)
unfolding transaction_present present_cohort
transaction_present_lands c i v = (
  (λ m a. ground (arith, each-present-Landed i c.parked c.window m a, v.fresh)),
  (λ h. ground (arith, v.fresh, v.frozen i, each-present i c.parked c.window)),
)
