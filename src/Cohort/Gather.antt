-- ===== src/Cohort/Gather.antt =====
-- libswc/window.c: a cohort that is open, and not committed, only gathers windows.
use neoswc.Prelude.{
  ℕ, ◌≡◌, refl, ◌≢◌, Bool, true, false, not, ◌&&◌, Option, none, some, arith, if_ind, option_ind,
  ◌∙◌, ap,
}
use neoswc.Prelude.Int.{ℤ, eqb_ℤ}
use neoswc.Transaction.{
  Transaction, Timer, absent, armed, is_some, add, ack, commit, timeout, finish, transaction_create,
  create,
}
use neoswc.Window.{Rectangle, clamp_dimension, size_settled}
use neoswc.Cohort.{
  Cohort, Outcome, settle, enrol, join_transaction, set_position, set_size, set_geometry,
  first_call, transaction_begin, transaction_commit, transaction_expire, transaction_done,
  present_cohort,
}

-- A transaction with a handler that is neither committed nor complete
pub record Gathering (t : Transaction) : Type 0 where
  pub handled : t.handler ≡ true
  pub uncommitted : t.committed ≡ false
  pub incomplete : t.complete ≡ false

pub Open : Cohort → Type 0
Open c = (t : Transaction) × (c.barrier ≡ some t) × Gathering t

-- An outcome that calls nobody and leaves the cohort open
unfoldable pub StaysOpen : Outcome → Type 0
StaysOpen o = (o.1 ≡ none) × Open o.0

add-Gathering :
    (allocated : Bool) (t : Transaction) (key serial : ℕ)
    → Gathering t
    → Gathering (add allocated t key serial).0
unfolding add
add-Gathering allocated t key serial v = ground (arith, v)

ack-Gathering :
    (t : Transaction) (key serial : ℕ)
    → Gathering t
    → ((ack t key serial).1 ≡ none) × Gathering (ack t key serial).0
unfolding ack
ack-Gathering t key serial v = ground (arith, v)

-- The case where the operation on the transaction calls nobody
settle-StaysOpen :
    (c : Cohort) (o : Transaction × Option Bool)
    → o.1 ≡ none
    → Gathering o.0
    → StaysOpen (settle c o)
unfolding settle StaysOpen Open
settle-StaysOpen c (t, none) e v = (refl, (t, refl, v))
settle-StaysOpen c (t, some b) e v = ground (arith, e)

barrier-Gathering : (c : Cohort) (t : Transaction) → Open c → c.barrier ≡ some t → Gathering t
unfolding Open
barrier-Gathering c t (t', e, v) e' = ground (arith, e, e', v)

no_barrier : (c : Cohort) → Open c → c.barrier ≢ none
unfolding Open
no_barrier c (t, e, v) n = ground (arith, e, n)

join-StaysOpen :
    (allocated : Bool) (c : Cohort) (i : ℕ) (awaiting_ack : Bool)
    → Open c
    → StaysOpen (join_transaction allocated c i awaiting_ack)
unfolding join_transaction StaysOpen Open
join-StaysOpen allocated c i awaiting_ack v =
    option_ind StaysOpen c.barrier (λ n. absurd (no_barrier c v n))
      λ t e.
        let enrolled = add allocated t i (c.window i).serial in
        let u = add-Gathering allocated t i (c.window i).serial (barrier-Gathering c t v e) in
        let (quiet, u') = ack-Gathering enrolled.0 i (c.window i).serial u in
        if_ind StaysOpen (c.window i).in_cohort (λ _. (refl, v))
          λ _.
            if_ind StaysOpen (not enrolled.1) (λ _. (refl, v))
              λ _.
                if_ind StaysOpen awaiting_ack (λ _. (refl, (enrolled.0, refl, u)))
                  λ _. settle-StaysOpen (enrol c i enrolled.0) _ quiet u'

set_position-StaysOpen :
    (allocated : Bool) (c : Cohort) (i : ℕ) (x y : ℤ)
    → Open c
    → StaysOpen (set_position allocated c i x y)
unfolding set_position StaysOpen Open
set_position-StaysOpen allocated c i x y v =
    let w = c.window i in
    if_ind StaysOpen (eqb_ℤ x w.geometry.x && eqb_ℤ y w.geometry.y) (λ _. (refl, v))
      λ _.
        if_ind StaysOpen (is_some c.barrier) (λ _. join-StaysOpen allocated _ i _ v)
          λ n. absurd (no_barrier c v (ground (arith, n)))

set_size-StaysOpen :
    (allocated : Bool) (c : Cohort) (i width height : ℕ)
    → Open c
    → StaysOpen (set_size allocated c i width height)
unfolding set_size StaysOpen Open
set_size-StaysOpen allocated c i width height v =
    let w = c.window i in
    if_ind StaysOpen
      (size_settled w (clamp_dimension width w.min_width w.max_width)
        (clamp_dimension height w.min_height w.max_height))
      (λ _. (refl, v))
      λ _.
        if_ind StaysOpen (is_some c.barrier) (λ _. join-StaysOpen allocated _ i _ v)
          λ n. absurd (no_barrier c v (ground (arith, n)))

-- Configuring a window of an open cohort calls nobody and leaves the cohort open.
pub set_geometry-StaysOpen :
    (allocated : Bool) (c : Cohort) (i : ℕ) (g : Rectangle)
    → Open c
    → StaysOpen (set_geometry allocated c i g)
unfolding set_geometry StaysOpen
set_geometry-StaysOpen allocated c i g v =
    let (quiet, v') = set_size-StaysOpen allocated c i g.width g.height v in
    let (quiet', v'') = set_position-StaysOpen allocated _ i g.x g.y v' in
    (
      ap
            (λ d.
              first_call d
                (set_position allocated (set_size allocated c i g.width g.height).0 i g.x g.y).1)
            quiet
          ∙ quiet',
      v'',
    )

begin-barrier :
    (c : Cohort) → c.barrier ≡ none → (transaction_begin true true c).0.barrier ≡ some (create true)
unfolding transaction_begin transaction_create present_cohort
begin-barrier c e = ground (arith, e)

created-Gathering : Gathering (create true)
unfolding create
created-Gathering = record { handled = refl; uncommitted = refl; incomplete = refl }

-- With a loop, memory and no cohort under way, one is opened.
pub transaction_begin-Open :
    (c : Cohort) → c.barrier ≡ none → Open (transaction_begin true true c).0
unfolding Open
transaction_begin-Open c e = (create true, begin-barrier c e, created-Gathering)

-- The timer of the transaction that is open
abbrev pub timer_of : Option Transaction → Timer
timer_of none = absent
timer_of (some t) = t.timer

-- A commit that calls nobody leaves the timer armed, and its expiry ends the cohort with a call.
pub commit-timed :
    (c : Cohort) (ms : ℕ)
    → Open c
    → ms ≢ 0
    → (transaction_commit true c ms true).1 ≡ none
    → let c' = (transaction_commit true c ms true).0 in
      (timer_of c'.barrier ≡ armed ms) × ((transaction_expire c').1 ≡ some true)
unfolding transaction_commit transaction_expire Open commit timeout finish settle transaction_done
commit-timed c ms (t, e, v) ne quiet = ground (arith, e, v, ne, quiet)
