-- ===== src/Cohort/Atomic.antt =====
-- What the barrier promises: nothing of a cohort shows before everybody has answered, and then
-- all of it does.
use neoswc.Prelude.{
  ℕ, ◌≡◌, refl, Bool, true, false, not, Option, none, some, List, [], ◌∷◌, arith, ◌==◌, ◌&&◌,
  if_ind, option_ind, sym, ◌∙◌,
}
use neoswc.Prelude.Int.{ℤ, eqb_ℤ}
use neoswc.Transaction.{Transaction, is_some, add, ack, commit, remove, timeout}
use neoswc.Window.{Window, configured, size_settled, clamp_dimension}
use neoswc.Cohort.{
  Cohort, Outcome, update, put, each, park, settle, transaction_done, leave_transaction, Call, step,
  transaction_present, transaction_begin, transaction_commit, transaction_expire,
  window_ack_configure, commit_buffer, set_stacked, set_tiled, set_position, set_size,
  join_transaction, enrol, present_cohort, begin_call, present_call, commit_call, expire_call,
  ack_call, buffer_call, stacked_call, tiled_call, position_call, size_call, leave_call, move_call,
  move_view,
}
use neoswc.Cohort.Members.{mem}
use neoswc.Cohort.Invariant.{Inv, Barrier}

-- Settling moves no view.
each-park_geometry :
    (t : Transaction) (i : ℕ) (is : List ℕ) (f : ℕ → Window)
    → (each (park t) is f i).geometry ≡ (f i).geometry
unfolding each
each-park_geometry t i [] f = refl
each-park_geometry t i (k ∷ is) f =
    ground (arith, each-park_geometry t i is (put f k (park t k (f k))))

abbrev Still : (ℕ → Window) → ℕ → Outcome → Type 0
Still f i o = (o.0.window i).geometry ≡ (f i).geometry

settle-Still : (c : Cohort) (r : Transaction × Option Bool) (i : ℕ) → Still c.window i (settle c r)
unfolding settle transaction_done
settle-Still c (t, none) i = refl
settle-Still c (t, some b) i = each-park_geometry t i c.members c.window

join-Still :
    (allocated : Bool) (c : Cohort) (j : ℕ) (awaiting_ack : Bool) (i : ℕ)
    → Still c.window i (join_transaction allocated c j awaiting_ack)
unfolding join_transaction
join-Still allocated c j awaiting_ack i =
    option_ind (Still c.window i) c.barrier (λ e. refl)
      λ t e.
        if_ind (Still c.window i) (c.window j).in_cohort (λ m. refl)
          λ out.
            let r = add allocated t j (c.window j).serial in
            if_ind (Still c.window i) (not r.1) (λ failed. refl)
              λ ok.
                if_ind (Still c.window i) awaiting_ack (λ a. ground arith)
                  λ a. settle-Still (enrol c j r.0) (ack r.0 j (c.window j).serial) i ∙ ground arith

-- Where there is a member, a barrier is open and nobody awaits present.
Barrier-open :
    (b : Option Transaction) (is js : List ℕ) (i : ℕ)
    → Barrier b is js
    → mem i is ≡ true
    → (is_some b ≡ true) × (js ≡ [])
Barrier-open none is js i h m = absurd (ground (arith, h))
Barrier-open (some t) is js i h m = (refl, h.1)

-- The calls by which a window leaves its cohort, or its view is moved at once.
abbrev pub excepted : Call → ℕ → Bool
excepted (leave_call j) i = j == i
excepted (move_call j x y) i = j == i
excepted _ i = false

module _ (c : Cohort) (i : ℕ) (v : Inv c) (member : (c.window i).in_cohort ≡ true) where
  open_here : (is_some c.barrier ≡ true) × (c.parked ≡ [])
  open_here = Barrier-open c.barrier c.members c.parked i v.barrier (sym (v.enrolled i) ∙ member)

  held_here : (c.window i).held ≡ true
  held_here = v.members_held i (sym (v.enrolled i) ∙ member)

  begin-Still :
      (loop allocated : Bool)
      → ((transaction_begin loop allocated c).0.window i).geometry ≡ (c.window i).geometry
  unfolding transaction_begin
  begin-Still loop allocated = ground (arith, open_here, v.fresh)

  present-Still : ((transaction_present c).window i).geometry ≡ (c.window i).geometry
  unfolding transaction_present present_cohort each
  present-Still = ground (arith, open_here)

  ack-Still : (j : ℕ) → Still c.window i (window_ack_configure c j)
  unfolding window_ack_configure
  ack-Still j =
      let c' : Cohort = update c j (record (c.window j) { acknowledged = true }) in
      let same : (c'.window i).geometry ≡ (c.window i).geometry = ground arith in
      if_ind (Still c.window i) (c.window j).in_cohort
        (λ m.
          option_ind (Still c.window i) c.barrier (λ e. same)
            (λ t e. settle-Still c' (ack t j (c.window j).serial) i ∙ same))
        (λ out. same)

  position-Still :
      (allocated : Bool) (j : ℕ) (x y : ℤ) → Still c.window i (set_position allocated c j x y)
  unfolding set_position
  position-Still allocated j x y =
      let w : Window = c.window j in
      let moved : Window = record w { move_x = x; move_y = y; move_pending = true } in
      if_ind (Still c.window i) (eqb_ℤ x w.geometry.x && eqb_ℤ y w.geometry.y) (λ e. ground arith)
        λ e.
          if_ind (Still c.window i) (is_some c.barrier)
            (λ o.
              join-Still allocated (update c j moved) j (w.configure_pending && not w.acknowledged)
                i
              ∙ ground arith)
            (λ o. absurd (ground (arith, open_here)))

  size-Still :
      (allocated : Bool) (j width height : ℕ)
      → Still c.window i (set_size allocated c j width height)
  unfolding set_size
  size-Still allocated j width height =
      let w : Window = c.window j in
      let width' : ℕ = clamp_dimension width w.min_width w.max_width in
      let height' : ℕ = clamp_dimension height w.min_height w.max_height in
      let w' : Window = configured w width' height' in
      if_ind (Still c.window i) (size_settled w width' height') (λ e. refl)
        λ e.
          if_ind (Still c.window i) (is_some c.barrier)
            (λ o. join-Still allocated (update c j w') j (not w'.acknowledged) i ∙ ground arith)
            (λ o. absurd (ground (arith, open_here)))

  leave-Still : (j : ℕ) → (j == i) ≡ false → Still c.window i (leave_transaction c j)
  unfolding leave_transaction
  leave-Still j ne =
      if_ind (Still c.window i) (not (c.window j).in_cohort) (λ out. refl)
        λ m.
          option_ind (Still c.window i) c.barrier (λ e. ground arith)
            λ t e. settle-Still _ (remove t j) i ∙ ground arith

-- Under the invariant of the cohort, the view of a window that is enrolled in the open cohort keeps
-- its position and its size in each of these steps: a begin, commit, present or expiry of the cohort,
-- and an acknowledgement, a buffer, a position, a size, stacked or tiled mode, a departure or a move
-- of the view for any window, but for two of them for that window itself: that it leaves the cohort,
-- and that its view is moved at once, which an interactive move and a window geometry do.
pub step-member_still :
    (c : Cohort) (k : Call) (i : ℕ)
    → Inv c
    → (c.window i).in_cohort ≡ true
    → excepted k i ≡ false
    → ((step c k).0.window i).geometry ≡ (c.window i).geometry
unfolding step commit_buffer set_stacked set_tiled transaction_commit transaction_expire move_view
step-member_still c (begin_call loop allocated) i v m l = begin-Still c i v m loop allocated
step-member_still c present_call i v m l = present-Still c i v m
step-member_still c (commit_call timer_added ms done) i v m l =
    option_ind (Still c.window i) c.barrier (λ e. refl)
      (λ t e. settle-Still (record c { done_cb = done }) (commit timer_added t ms) i)
step-member_still c expire_call i v m l =
    option_ind (Still c.window i) c.barrier (λ e. refl) (λ t e. settle-Still c (timeout t) i)
step-member_still c (ack_call j) i v m l = ack-Still c i v m j
step-member_still c (buffer_call j width height) i v m l = ground (arith, held_here c i v m)
step-member_still c (stacked_call j) i v m l = ground arith
step-member_still c (tiled_call j) i v m l = ground arith
step-member_still c (position_call allocated j x y) i v m l = position-Still c i v m allocated j x y
step-member_still c (size_call allocated j width height) i v m l =
    size-Still c i v m allocated j width height
step-member_still c (leave_call j) i v m l = leave-Still c i v m j l
step-member_still c (move_call j x y) i v m l = ground (arith, l)
