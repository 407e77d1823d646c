-- ===== src/Transaction.antt =====
-- libswc/transaction.c: the barrier that a cohort of configures waits on.
-- A participant's key is an address, so a number. The completion handler is called as the last
-- action of `finish`, and `finish` as the last action of each operation; so a step returns the call
-- of the handler, `some timed_out`, beside the new state, and what the handler does to the
-- transaction is the next steps.
pub mod Members
pub mod Invariant
pub mod Completion
pub mod Liveness
mod Tests
use neoswc.Prelude.{
  ℕ, ◌+◌, ◌-◌, ◌%◌, ◌^◌, Bool, true, false, not, ◌&&◌, ◌||◌, Option, none, some, List, [], ◌∷◌,
  ◌==◌, if◌then◌else◌,
}

-- `struct participant`
pub record Participant : Type 0 where
  pub key : ℕ
  pub serial : ℕ
  pub acked : Bool

-- The event source behind `timer`: not there, there but disarmed, or armed with a delay.
pub data Timer : Type 0 where
  absent disarmed : Timer
  armed : ℕ → Timer

-- `struct transaction`. `handler` says whether there is a completion handler to call.
pub record Transaction : Type 0 where
  pub handler : Bool
  pub participants : List Participant
  pub timer : Timer
  pub size : ℕ
  pub pending : ℕ
  pub committed : Bool
  pub complete : Bool

-- `++` and `--` on a `size_t`
abbrev pub inc_size : ℕ → ℕ
inc_size n = (n + 1) % 2 ^ 64

abbrev pub dec_size : ℕ → ℕ
dec_size n = (n + 2 ^ 64 - 1) % 2 ^ 64

-- `find`: the first participant with the key
unfoldable pub find : ℕ → List Participant → Option Participant
find k [] = none
find k (p ∷ ps) = if p.key == k then some p else find k ps

abbrev pub is_some {ℓ} : {A : Type ℓ} → Option A → Bool
is_some none = false
is_some (some a) = true

-- `wl_list_remove` of the participant that `find` returns
unfoldable pub unlink : ℕ → List Participant → List Participant
unlink k [] = []
unlink k (p ∷ ps) = if p.key == k then ps else p ∷ unlink k ps

-- `participant->acked = true` at the participant that `find` returns
unfoldable pub mark : ℕ → List Participant → List Participant
mark k [] = []
mark k (p ∷ ps) = if p.key == k then record p { acked = true } ∷ ps else p ∷ mark k ps

-- `wl_event_source_timer_update`: a delay of 0 disarms.
abbrev pub timer_update : ℕ → Timer
timer_update ms = if ms == 0 then disarmed else armed ms

abbrev pub disarm : Timer → Timer
disarm absent = absent
disarm disarmed = timer_update 0
disarm (armed ms) = timer_update 0

-- What a step leaves: the state, and the call of the handler.
abbrev pub Outcome : Type 0
Outcome = Transaction × Option Bool

unfoldable pub finish : Transaction → Bool → Outcome
finish t timed_out = if t.complete then (t, none) else (
  record t { complete = true; timer = disarm t.timer },
  (if t.handler then some timed_out else none),
)

abbrev pub finish_if_settled : Transaction → Outcome
finish_if_settled t = if t.committed && (t.pending == 0) then finish t false else (t, none)

-- `transaction_create` with an event loop and memory
unfoldable pub create : Bool → Transaction
create handler = record {
  handler = handler;
  participants = [];
  timer = absent;
  size = 0;
  pending = 0;
  committed = false;
  complete = false;
}

-- `transaction_create`: the event loop may be NULL and `malloc` may fail.
unfoldable pub transaction_create : Bool → Bool → Bool → Option Transaction
transaction_create loop allocated handler =
    if not loop then none else if not allocated then none else some (create handler)

-- `transaction_add`. `allocated` is the answer of `malloc`.
unfoldable pub add : Bool → Transaction → ℕ → ℕ → Transaction × Bool
add allocated t key serial =
    if t.committed || is_some (find key t.participants)
    then (t, false)
    else if not allocated
    then (t, false)
    else (
      record t {
        participants = record { key = key; serial = serial; acked = false } ∷ t.participants;
        size = inc_size t.size;
        pending = inc_size t.pending;
      },
      true,
    )

abbrev remove_found : Transaction → ℕ → Participant → Outcome
remove_found t key p = finish_if_settled (record t {
  participants = unlink key t.participants;
  size = dec_size t.size;
  pending = if not p.acked then dec_size t.pending else t.pending;
})

-- `transaction_remove`
unfoldable pub remove : Transaction → ℕ → Outcome
remove t key = elim (find key t.participants) [ none ↦ (t, none) | some p ↦ remove_found t key p ]

abbrev ack_found : Transaction → ℕ → ℕ → Participant → Outcome
ack_found t key serial p =
    if not (p.serial == serial) || p.acked
    then (t, none)
    else finish_if_settled
        (record t { participants = mark key t.participants; pending = dec_size t.pending })

-- `transaction_ack`
unfoldable pub ack : Transaction → ℕ → ℕ → Outcome
ack t key serial = elim (find key t.participants) [
  | none ↦ (t, none)
  | some p ↦ ack_found t key serial p
]

-- `transaction_commit`. `timer_added` is the answer of `wl_event_loop_add_timer`.
unfoldable pub commit : Bool → Transaction → ℕ → Outcome
commit timer_added t ms =
    if t.committed
    then (t, none)
    else if t.pending == 0
    then finish (record t { committed = true }) false
    else if not timer_added
    then finish (record t { committed = true }) true
    else (record t { committed = true; timer = timer_update ms }, none)

-- `handle_timeout`
unfoldable pub timeout : Transaction → Outcome
timeout t = finish t true

-- `transaction_acked`
unfoldable pub acked : Transaction → ℕ → Bool
acked t key = elim (find key t.participants) [ none ↦ false | some p ↦ p.acked ]

-- The calls that can be made on a transaction, and the expiry of its timer.
pub data Op : Type 0 where
  add_op : Bool → ℕ → ℕ → Op
  remove_op : ℕ → Op
  ack_op : ℕ → ℕ → Op
  commit_op : Bool → ℕ → Op
  timeout_op : Op

unfoldable pub step : Transaction → Op → Outcome
step t (add_op allocated key serial) = ((add allocated t key serial).0, none)
step t (remove_op key) = remove t key
step t (ack_op key serial) = ack t key serial
step t (commit_op timer_added ms) = commit timer_added t ms
step t timeout_op = timeout t

-- The public functions on a pointer, which may be NULL.
unfoldable pub call : Option Transaction → Op → Option Transaction × Option Bool
call none op = (none, none)
call (some t) op = let (t', called) = step t op in (some t', called)

abbrev pub log : Option Bool → List Bool → List Bool
log none l = l
log (some b) l = b ∷ l

-- A run of steps, with the calls of the handler in order.
unfoldable pub run : Transaction → List Op → Transaction × List Bool
run t [] = (t, [])
run t (o ∷ os) = let (t', called) = step t o in let (u, l) = run t' os in (u, log called l)

-- `transaction_destroy` of a transaction that is there: the event source is removed, and the
-- participants are unlinked and freed; what is left is freed itself.
unfoldable pub transaction_destroy : Transaction → Transaction
transaction_destroy t = record t { participants = []; timer = absent }
