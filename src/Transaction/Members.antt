-- ===== src/Transaction/Members.antt =====
-- The list of participants: what `find`, `unlink` and `mark` do to its keys, its length and the
-- number of outstanding participants.
use neoswc.Prelude.{
  ℕ, suc, ◌≤◌, ◌≡◌, refl, Bool, true, false, Option, none, some, List, [], ◌∷◌, arith, length, ◌==◌,
  if◌then◌else◌,
}
use neoswc.Transaction.{Participant, find, unlink, mark}

-- Participants that still owe an acknowledgement.
abbrev pub outstanding : List Participant → ℕ
outstanding [] = 0
outstanding (p ∷ ps) = if p.acked then outstanding ps else suc (outstanding ps)

-- No key is enrolled twice.
abbrev pub Distinct : List Participant → Type 0
Distinct [] = Unit {0}
Distinct (p ∷ ps) = (find p.key ps ≡ none) × Distinct ps

pub outstanding-le : (ps : List Participant) → outstanding ps ≤ length ps
outstanding-le [] = omega arith
outstanding-le (p ∷ ps) = ground (arith, outstanding-le ps)

pub length-unlink :
    (k : ℕ) (ps : List Participant) (p : Participant)
    → find k ps ≡ some p
    → length ps ≡ suc (length (unlink k ps))
unfolding find unlink
length-unlink k [] p e = cc
length-unlink k (q ∷ ps) p e = ground (arith, length-unlink k ps p)

pub outstanding-unlink :
    (k : ℕ) (ps : List Participant) (p : Participant)
    → find k ps ≡ some p
    → outstanding ps
      ≡ (if p.acked then outstanding (unlink k ps) else suc (outstanding (unlink k ps)))
unfolding find unlink
outstanding-unlink k [] p e = cc
outstanding-unlink k (q ∷ ps) p e = ground (arith, outstanding-unlink k ps p)

pub length-mark : (k : ℕ) (ps : List Participant) → length (mark k ps) ≡ length ps
unfolding mark
length-mark k [] = refl
length-mark k (q ∷ ps) = ground (arith, length-mark k ps)

pub outstanding-mark :
    (k : ℕ) (ps : List Participant) (p : Participant)
    → find k ps ≡ some p
    → p.acked ≡ false
    → outstanding ps ≡ suc (outstanding (mark k ps))
unfolding find mark
outstanding-mark k [] p e a = cc
outstanding-mark k (q ∷ ps) p e a = ground (arith, outstanding-mark k ps p)

pub find-unlink-none :
    (j k : ℕ) (ps : List Participant) → find j ps ≡ none → find j (unlink k ps) ≡ none
unfolding find unlink
find-unlink-none j k [] e = refl
find-unlink-none j k (q ∷ ps) e = ground (arith, find-unlink-none j k ps)

pub unlink-Distinct : (k : ℕ) (ps : List Participant) → Distinct ps → Distinct (unlink k ps)
unfolding unlink
unlink-Distinct k [] d = tt
unlink-Distinct k (q ∷ ps) d =
    ground (arith, unlink-Distinct k ps d.1, find-unlink-none q.key k ps d.0)

-- What `mark` makes of the participant that `find` returns.
abbrev pub marked : Bool → Option Participant → Option Participant
marked b none = none
marked b (some p) = some (if b then record p { acked = true } else p)

pub find-mark : (j k : ℕ) (ps : List Participant) → find j (mark k ps) ≡ marked (j == k) (find j ps)
unfolding find mark
find-mark j k [] = refl
find-mark j k (q ∷ ps) = ground (arith, find-mark j k ps)

pub mark-Distinct : (k : ℕ) (ps : List Participant) → Distinct ps → Distinct (mark k ps)
unfolding mark
mark-Distinct k [] d = tt
mark-Distinct k (q ∷ ps) d = ground (arith, mark-Distinct k ps d.1, find-mark q.key k ps)

pub mark-mark : (j k : ℕ) (ps : List Participant) → mark j (mark k ps) ≡ mark k (mark j ps)
unfolding mark
mark-mark j k [] = refl
mark-mark j k (q ∷ ps) = ground (arith, mark-mark j k ps)
