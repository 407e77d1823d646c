-- ===== src/Cohort/Members.antt =====
-- Lists of windows, and what a loop over such a list does to the windows.
use neoswc.Prelude.{
  ℕ, ◌≡◌, refl, Bool, true, false, none, List, [], ◌∷◌, arith, ◌==◌, if◌then◌else◌,
}
use neoswc.Transaction.{Participant, Transaction, find, unlink, mark}
use neoswc.Transaction.Members.{Distinct}
use neoswc.Window.{
  Window, flush, handle_attach, view_attach, surface_release_render, present_window,
}
use neoswc.Cohort.{put, drop_id, each, park, push_all}

abbrev pub mem : ℕ → List ℕ → Bool
mem i [] = false
mem i (j ∷ js) = if j == i then true else mem i js

abbrev pub keys : List Participant → List ℕ
keys [] = []
keys (p ∷ ps) = p.key ∷ keys ps

pub keys-unlink : (i : ℕ) (ps : List Participant) → keys (unlink i ps) ≡ drop_id i (keys ps)
unfolding unlink drop_id
keys-unlink i [] = refl
keys-unlink i (p ∷ ps) = ground (arith, keys-unlink i ps)

pub keys-mark : (i : ℕ) (ps : List Participant) → keys (mark i ps) ≡ keys ps
unfolding mark
keys-mark i [] = refl
keys-mark i (p ∷ ps) = ground (arith, keys-mark i ps)

pub mem-keys-none : (i : ℕ) (ps : List Participant) → find i ps ≡ none → mem i (keys ps) ≡ false
unfolding find
mem-keys-none i [] e = refl
mem-keys-none i (p ∷ ps) e = ground (arith, mem-keys-none i ps)

pub mem-drop_keys :
    (i j : ℕ) (ps : List Participant)
    → Distinct ps
    → mem j (drop_id i (keys ps)) ≡ (if i == j then false else mem j (keys ps))
unfolding drop_id
mem-drop_keys i j [] d = ground arith
mem-drop_keys i j (p ∷ ps) d = ground (arith, mem-drop_keys i j ps d.1, mem-keys-none p.key ps d.0)

pub mem-drop_id_ne : (i j : ℕ) (is : List ℕ) → (i == j) ≡ false → mem j (drop_id i is) ≡ mem j is
unfolding drop_id
mem-drop_id_ne i j [] e = refl
mem-drop_id_ne i j (k ∷ is) e = ground (arith, mem-drop_id_ne i j is)

pub drop_id_absent : (i : ℕ) (is : List ℕ) → mem i is ≡ false → drop_id i is ≡ is
unfolding drop_id
drop_id_absent i [] e = refl
drop_id_absent i (k ∷ is) e = ground (arith, drop_id_absent i is)

pub mem-push_all :
    (i : ℕ) (is js : List ℕ) → mem i (push_all is js) ≡ (if mem i is then true else mem i js)
unfolding push_all
mem-push_all i [] js = refl
mem-push_all i (k ∷ is) js = ground (arith, mem-push_all i is (k ∷ js))

-- `park` forgets the transaction and keeps the hold.
pub each-park :
    (t : Transaction) (i : ℕ) (is : List ℕ) (f : ℕ → Window)
    → ((each (park t) is f i).in_cohort ≡ (if mem i is then false else (f i).in_cohort))
      × ((each (park t) is f i).held ≡ (f i).held)
unfolding each
each-park t i [] f = (refl, refl)
each-park t i (k ∷ is) f = ground (arith, each-park t i is (put f k (park t k (f k))))

pub flush_kept : (w : Window) → ((flush w).in_cohort ≡ w.in_cohort) × ((flush w).held ≡ w.held)
unfolding flush
flush_kept w = ground arith

pub view_attach_kept :
    (w : Window) → ((view_attach w).in_cohort ≡ w.in_cohort) × ((view_attach w).held ≡ w.held)
unfolding view_attach handle_attach flush
view_attach_kept w = ground arith

pub release_kept :
    (w : Window)
    → ((surface_release_render w).in_cohort ≡ w.in_cohort)
      × ((surface_release_render w).held ≡ false)
unfolding surface_release_render
release_kept w = ground (arith, view_attach_kept (record w { held = false; held_attach = false }))

pub present_kept :
    (w : Window) → ((present_window w).in_cohort ≡ w.in_cohort) × ((present_window w).held ≡ false)
unfolding present_window
present_kept w = ground (
  arith,
  flush_kept w,
  release_kept (if w.transaction_acked then record (flush w) { configure_pending = false } else w),
)

pub each-present :
    (i : ℕ) (is : List ℕ) (f : ℕ → Window)
    → ((each (λ _. present_window) is f i).in_cohort ≡ (f i).in_cohort)
      × ((each (λ _. present_window) is f i).held ≡ (if mem i is then false else (f i).held))
unfolding each
each-present i [] f = (refl, refl)
each-present i (k ∷ is) f =
    ground (arith, each-present i is (put f k (present_window (f k))), present_kept (f k))
