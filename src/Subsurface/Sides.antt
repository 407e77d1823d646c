-- ===== src/Subsurface/Sides.antt =====
-- libswc/subsurface.c: lemmas on the two sides of a stack of surfaces.
use neoswc.Prelude.{
  ℕ, ◌≡◌, refl, sym, subst, Bool, true, false, ◌&&◌, List, [], ◌∷◌, ◌++◌, ◌==◌, arith,
  if◌then◌else◌,
}
use neoswc.Subsurface.{listed, unlink}
use neoswc.Subsurface.Siblings.{distinct, listed-++, listed-unlink, apart}
use neoswc.Subsurface.Segments.{put_segment, unlink_all, disjoint, listed-put_segment}
use mathlib.Core.List.{reverse, reverse-cons, append_assoc}

-- Every number of the one list is in the other.
abbrev pub all_listed : List ℕ → List ℕ → Bool
all_listed [] vs = true
all_listed (c ∷ cs) vs = listed c vs && all_listed cs vs

-- The number of a list, where it stands, replaced by a segment
abbrev pub open_at : ℕ → List ℕ → List ℕ → List ℕ
open_at r seg [] = []
open_at r seg (v ∷ vs) = if v == r then seg ++ vs else v ∷ open_at r seg vs

pub put_segment-both :
    (r : ℕ) (over under vs : List ℕ)
    → listed r vs ≡ true
    → put_segment true r over (put_segment false r under vs) ≡ open_at r (over ++ r ∷ under) vs
unfolding listed
put_segment-both r over under [] h = ground (arith, h)
put_segment-both r over under (v ∷ vs) h =
    ground (arith, h, put_segment-both r over under vs, append_assoc over (r ∷ under) vs)

pub stays_listed :
    (d : ℕ) (cs vs : List ℕ)
    → listed d vs ≡ true
    → listed d cs ≡ false
    → listed d (unlink_all cs vs) ≡ true
unfolding listed
stays_listed d [] vs h a = h
stays_listed d (c ∷ cs) vs h a =
    ground (arith, h, a, listed-unlink d c vs, stays_listed d cs (unlink c vs))

pub listed-reverse : (d : ℕ) (cs : List ℕ) → listed d (reverse cs) ≡ listed d cs
unfolding listed
listed-reverse d [] = refl
listed-reverse d (c ∷ cs) =
    ground (arith, reverse-cons c cs, listed-++ d (reverse cs) (c ∷ []), listed-reverse d cs)

pub disjoint_intro :
    (cs seg : List ℕ) → ((o : ℕ) → listed o cs && listed o seg ≡ false) → disjoint cs seg ≡ true
unfolding listed
disjoint_intro [] seg f = refl
disjoint_intro (c ∷ cs) seg f =
    ground (arith, f c, disjoint_intro cs seg (λ o. ground (arith, f o)))

distinct-snoc :
    (c : ℕ) (cs : List ℕ)
    → distinct cs ≡ true
    → listed c cs ≡ false
    → distinct (cs ++ (c ∷ [])) ≡ true
unfolding listed
distinct-snoc c [] d a = refl
distinct-snoc c (e ∷ cs) d a = ground (arith, d, a, distinct-snoc c cs, listed-++ e cs (c ∷ []))

distinct-reverse : (cs : List ℕ) → distinct cs ≡ true → distinct (reverse cs) ≡ true
distinct-reverse [] d = refl
distinct-reverse (c ∷ cs) d =
    subst (λ (ds : List ℕ). distinct ds ≡ true) (sym (reverse-cons c cs))
      (distinct-snoc c (reverse cs) (distinct-reverse cs (ground (arith, d)))
        (ground (arith, d, listed-reverse c cs)))

-- Both sides of a stack are distinct, and neither has the number between them.
pub sides-distinct :
    (r : ℕ) (under over : List ℕ)
    → distinct (under ++ r ∷ over) ≡ true
    → (distinct (r ∷ over) ≡ true) × (distinct under ≡ true)
unfolding listed
sides-distinct r [] over d = ground (arith, d)
sides-distinct r (c ∷ under) over d =
    ground (arith, d, sides-distinct r under over, listed-++ c under (r ∷ over))

pub under-distinct :
    (r : ℕ) (under over : List ℕ)
    → distinct (under ++ r ∷ over) ≡ true
    → distinct (r ∷ reverse under) ≡ true
under-distinct r under over d = ground (
  arith,
  apart r r under over d,
  listed-reverse r under,
  distinct-reverse under (sides-distinct r under over d).1,
)

pub over-disjoint :
    (r : ℕ) (under over : List ℕ)
    → distinct (under ++ r ∷ over) ≡ true
    → disjoint over (reverse under) ≡ true
over-disjoint r under over d =
    disjoint_intro over (reverse under)
      (λ o. ground (arith, apart o r under over d, listed-reverse o under))

pub all_listed-++ :
    (cs ds vs : List ℕ) → all_listed (cs ++ ds) vs ≡ all_listed cs vs && all_listed ds vs
all_listed-++ [] ds vs = refl
all_listed-++ (c ∷ cs) ds vs = ground (arith, all_listed-++ cs ds vs)

pub all_listed-reverse : (cs vs : List ℕ) → all_listed (reverse cs) vs ≡ all_listed cs vs
all_listed-reverse [] vs = refl
all_listed-reverse (c ∷ cs) vs =
    ground
      (arith, reverse-cons c cs, all_listed-++ (reverse cs) (c ∷ []) vs, all_listed-reverse cs vs)

-- Numbers that a list has are there when others are moved.
pub all_listed-moved :
    (over : Bool) (r : ℕ) (cs ds seg vs : List ℕ)
    → all_listed cs vs ≡ true
    → disjoint cs ds ≡ true
    → all_listed cs (put_segment over r seg (unlink_all ds vs)) ≡ true
all_listed-moved over r [] ds seg vs h j = refl
all_listed-moved over r (c ∷ cs) ds seg vs h j = ground (
  arith,
  h,
  j,
  listed-put_segment over r c seg (unlink_all ds vs),
  stays_listed c ds vs,
  all_listed-moved over r cs ds seg vs,
)
