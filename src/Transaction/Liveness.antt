-- ===== src/Transaction/Liveness.antt =====
-- libswc/transaction.c: a committed transaction ends by its last acknowledgement.
use mathlib.Core.List.{append-nil, append_assoc}
use neoswc.Prelude.{
  ℕ, ◌+◌, ◌≡◌, refl, true, false, none, some, List, [], ◌∷◌, arith, length, ◌==◌, ◌++◌, sym, ◌∙◌,
}
use neoswc.Transaction.{Participant, Transaction, ack, finish, find, mark, Op, ack_op, step, run}
use neoswc.Transaction.Members.{outstanding, Distinct}
use neoswc.Transaction.Invariant.{Inv, step_op-Inv}
use neoswc.Transaction.Completion.{run-calls}

-- Everybody acknowledges the configure that it is enrolled with.
abbrev pub acks : List Participant → List Op
acks [] = []
acks (p ∷ ps) = ack_op p.key p.serial ∷ acks ps

find_behind_ne :
    (k : ℕ) (xs : List Participant) (p : Participant) (ys : List Participant)
    → find k (xs ++ p ∷ ys) ≡ none
    → (k == p.key) ≡ false
unfolding find
find_behind_ne k [] p ys e = ground arith
find_behind_ne k (x ∷ xs) p ys e = ground (arith, find_behind_ne k xs p ys)

find_behind :
    (xs : List Participant) (p : Participant) (ys : List Participant)
    → Distinct (xs ++ p ∷ ys)
    → find p.key (xs ++ p ∷ ys) ≡ some p
unfolding find
find_behind [] p ys d = ground arith
find_behind (x ∷ xs) p ys d =
    ground (arith, find_behind_ne x.key xs p ys d.0, find_behind xs p ys d.1)

mark_behind :
    (xs : List Participant) (p : Participant) (ys : List Participant)
    → Distinct (xs ++ p ∷ ys)
    → mark p.key (xs ++ p ∷ ys) ≡ xs ++ record p { acked = true } ∷ ys
unfolding mark
mark_behind [] p ys d = ground arith
mark_behind (x ∷ xs) p ys d =
    ground (arith, find_behind_ne x.key xs p ys d.0, mark_behind xs p ys d.1)

outstanding-append :
    (xs ys : List Participant) → outstanding (xs ++ ys) ≡ outstanding xs + outstanding ys
outstanding-append [] ys = omega arith
outstanding-append (x ∷ xs) ys = ground (arith, outstanding-append xs ys)

ack_behind :
    (t : Transaction) (xs : List Participant) (p : Participant) (ys : List Participant)
    → t.participants ≡ xs ++ p ∷ ys
    → Distinct (xs ++ p ∷ ys)
    → (ack t p.key p.serial).0.participants ≡ xs ++ record p { acked = true } ∷ ys
unfolding ack finish
ack_behind t xs p ys e d = ground (arith, find_behind xs p ys d, mark_behind xs p ys d)

ack_kept :
    (t : Transaction) (k s : ℕ)
    → ((ack t k s).0.committed ≡ t.committed) × ((ack t k s).0.handler ≡ t.handler)
unfolding ack finish
ack_kept t k s = ground arith

record Settled (t u : Transaction) : Type 0 where
  inv : Inv u
  none_out : outstanding u.participants ≡ 0
  committed : u.committed ≡ t.committed

run-acks :
    (t : Transaction) (xs ys : List Participant)
    → t.participants ≡ xs ++ ys
    → outstanding xs ≡ 0
    → Inv t
    → Settled t (run t (acks ys)).0
unfolding run step
run-acks t xs [] e z v = record { inv = v; none_out = rw (e, append-nil xs) z; committed = refl }
run-acks t xs (p ∷ ys) e z v =
    let p' : Participant = record p { acked = true } in
    let d : Distinct (xs ++ p ∷ ys) = rw e at v.distinct in
    let t' : Transaction = (ack t p.key p.serial).0 in
    let moved : t'.participants ≡ (xs ++ p' ∷ []) ++ ys =
      ack_behind t xs p ys e d ∙ sym (append_assoc xs (p' ∷ []) ys) in
    let rest =
      run-acks t' (xs ++ p' ∷ []) ys moved (omega (arith, outstanding-append xs (p' ∷ [])))
        (step_op-Inv t (ack_op p.key p.serial) tt v) in
    record {
      inv = rest.inv;
      none_out = rest.none_out;
      committed = rest.committed ∙ (ack_kept t p.key p.serial).0;
    }

-- Whenever a committed transaction that satisfies the invariant gets the acknowledgement of each
-- participant, with the serial that it is enrolled with, it ends complete; if it was not complete
-- before, the handler, if there is one, has then been called exactly once.
pub run-acks_complete :
    (t : Transaction)
    → Inv t
    → t.committed ≡ true
    → ((run t (acks t.participants)).0.complete ≡ true)
      × (t.handler ≡ true → t.complete ≡ false → length (run t (acks t.participants)).1 ≡ 1)
run-acks_complete t v c =
    let s = run-acks t [] t.participants refl refl v in
    let done : (run t (acks t.participants)).0.complete ≡ true = ground (arith, s.inv, s) in
    (done, λ h open_yet. ground (arith, done, run-calls t (acks t.participants) h))
