-- ===== src/Subsurface/Siblings.antt =====
-- libswc/subsurface.c: proofs about the requests that order the siblings.
use neoswc.Prelude.{
  ℕ, ◌≡◌, ◌≢◌, refl, Bool, true, false, not, ◌&&◌, ◌||◌, List, [], ◌∷◌, ◌++◌, ◌==◌, arith,
  if◌then◌else◌,
}
use neoswc.Subsurface.{
  Parent, placed, bad_surface, listed, unlink, link_beside, is_valid_sibling, place_above,
  place_below,
}

-- The surfaces of a parent from the lowest to the topmost, the parent's own between its children
abbrev pub stack : Parent → List ℕ
stack p = p.pending_below ++ p.surface ∷ p.pending_above

-- No number is there twice.
abbrev pub distinct : List ℕ → Bool
distinct [] = true
distinct (c ∷ cs) = not (listed c cs) && distinct cs

pub listed-++ : (i : ℕ) (ls us : List ℕ) → listed i (ls ++ us) ≡ listed i ls || listed i us
unfolding listed
listed-++ i [] us = ground arith
listed-++ i (a ∷ ls) us = ground (arith, listed-++ i ls us)

pub unlink_absent : (i : ℕ) (cs : List ℕ) → listed i cs ≡ false → unlink i cs ≡ cs
unfolding unlink listed
unlink_absent i [] a = refl
unlink_absent i (c ∷ cs) a = ground (arith, a, unlink_absent i cs)

link_absent : (b : Bool) (o i : ℕ) (cs : List ℕ) → listed o cs ≡ false → link_beside b o i cs ≡ cs
unfolding link_beside listed
link_absent b o i [] a = refl
link_absent b o i (c ∷ cs) a = ground (arith, a, link_absent b o i cs)

pub listed-unlink : (o i : ℕ) (cs : List ℕ) → o ≢ i → listed o (unlink i cs) ≡ listed o cs
unfolding unlink listed
listed-unlink o i [] n = refl
listed-unlink o i (c ∷ cs) n = ground (arith, n, listed-unlink o i cs n)

-- In a stack, what stands below the parent's surface is not also above it, nor is that surface.
pub apart :
    (o p : ℕ) (ls us : List ℕ)
    → distinct (ls ++ p ∷ us) ≡ true
    → (listed o ls && listed o us ≡ false) × (listed p ls ≡ false)
unfolding listed
apart o p [] us d = ground arith
apart o p (a ∷ ls) us d =
    ground (arith, d, apart o p ls us, listed-++ a ls (p ∷ us), listed-++ o ls (p ∷ us))

-- What is taken out of a stack comes out of one of its two sides.
unlink-++ :
    (i p : ℕ) (ls us : List ℕ)
    → p ≢ i
    → listed i ls && listed i us ≡ false
    → unlink i (ls ++ p ∷ us) ≡ unlink i ls ++ p ∷ unlink i us
unfolding unlink listed
unlink-++ i p [] us n d = ground (arith, n)
unlink-++ i p (a ∷ ls) us n d = ground (arith, n, d, unlink-++ i p ls us n, unlink_absent i us)

link-++ :
    (b : Bool) (o i p : ℕ) (ls us : List ℕ)
    → p ≢ o
    → listed o ls && listed o us ≡ false
    → link_beside b o i (ls ++ p ∷ us) ≡ link_beside b o i ls ++ p ∷ link_beside b o i us
unfolding link_beside listed
link-++ b o i p [] us n d = ground (arith, n)
link-++ b o i p (a ∷ ls) us n d =
    ground (arith, n, d, link-++ b o i p ls us n, link_absent b o i us)

link_middle :
    (b : Bool) (p i : ℕ) (ls us : List ℕ)
    → listed p ls ≡ false
    → link_beside b p i (ls ++ p ∷ us)
      ≡ (if b then ls ++ p ∷ i ∷ us else (ls ++ (i ∷ [])) ++ p ∷ us)
unfolding link_beside listed
link_middle b p i [] us d = ground arith
link_middle b p i (a ∷ ls) us d = ground (arith, d, link_middle b p i ls us)

-- Whether a surface is a sibling, or the parent, beside which a child may be put
abbrev pub placeable : Parent → ℕ → ℕ → Bool
placeable p i other = not (other == i) && listed other (stack p)

-- The two requests act on the two sides of the parent as if they were one stack, from the lowest to
-- the topmost, with the parent's surface in its place: above takes the child out and puts it right
-- over the other surface, below right under it. Of a surface that is neither the parent nor another
-- child of it they change nothing and answer an error. No surface stands in the stack twice.
pub place-stack :
    (p : Parent) (i other : ℕ)
    → p.surface ≢ i
    → distinct (stack p) ≡ true
    → let (up, answer) = place_above p i other in
      let (down, answer') = place_below p i other in
      let rest = unlink i (stack p) in
      (answer ≡ (if placeable p i other then placed else bad_surface))
      × (answer' ≡ answer)
      × (stack up ≡ (if placeable p i other then link_beside true other i rest else stack p))
      × (stack down ≡ (if placeable p i other then link_beside false other i rest else stack p))
unfolding place_above place_below is_valid_sibling listed
place-stack p i other n d = ground (
  arith,
  n,
  d,
  listed-++ other p.pending_below (p.surface ∷ p.pending_above),
  apart other p.surface p.pending_below p.pending_above d,
  apart i p.surface p.pending_below p.pending_above d,
  unlink-++ i p.surface p.pending_below p.pending_above n,
  listed-unlink other i p.pending_below,
  listed-unlink other i p.pending_above,
  listed-unlink p.surface i p.pending_below n,
  link-++ true other i p.surface (unlink i p.pending_below) (unlink i p.pending_above),
  link-++ false other i p.surface (unlink i p.pending_below) (unlink i p.pending_above),
  link_middle true p.surface i (unlink i p.pending_below) (unlink i p.pending_above),
  link_middle false p.surface i (unlink i p.pending_below) (unlink i p.pending_above),
)
