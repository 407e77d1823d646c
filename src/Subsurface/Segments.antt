-- ===== src/Subsurface/Segments.antt =====
-- libswc/subsurface.c: lemmas on segments of numbers that are put into lists.
use neoswc.Prelude.{
  ℕ, ◌≡◌, ◌≢◌, refl, ap, sym, ◌∙◌, Bool, true, false, not, ◌&&◌, ◌||◌, List, [], ◌∷◌, ◌++◌, ◌==◌,
  arith, if◌then◌else◌,
}
use neoswc.Subsurface.{listed, unlink}
use neoswc.Subsurface.Siblings.{distinct, unlink_absent, listed-++, listed-unlink}
use mathlib.Core.List.{reverse, reverse-cons, append_assoc, append-nil}

-- A segment put right before (over) or right behind (under) a number of a list, at the end if that is
-- not there
abbrev pub put_segment : Bool → ℕ → List ℕ → List ℕ → List ℕ
put_segment over r seg [] = seg
put_segment over r seg (v ∷ vs) =
    if v == r
    then if over then seg ++ (v ∷ vs) else v ∷ seg ++ vs
    else v ∷ put_segment over r seg vs

abbrev pub unlink_all : List ℕ → List ℕ → List ℕ
unlink_all [] vs = vs
unlink_all (c ∷ cs) vs = unlink_all cs (unlink c vs)

unlink-append :
    (d : ℕ) (seg vs : List ℕ) → listed d seg ≡ false → unlink d (seg ++ vs) ≡ seg ++ unlink d vs
unfolding unlink listed
unlink-append d [] vs a = refl
unlink-append d (c ∷ seg) vs a = ground (arith, a, unlink-append d seg vs)

-- Taking out another number changes nothing about what is put in.
unlink-put_segment :
    (over : Bool) (r d : ℕ) (seg vs : List ℕ)
    → d ≢ r
    → listed d seg ≡ false
    → unlink d (put_segment over r seg vs) ≡ put_segment over r seg (unlink d vs)
unfolding unlink listed
unlink-put_segment over r d seg [] n a = unlink_absent d seg a
unlink-put_segment over r d seg (v ∷ vs) n a = ground (
  arith,
  n,
  a,
  unlink-append d seg vs a,
  unlink-append d seg (v ∷ vs) a,
  unlink-put_segment over r d seg vs n a,
)

pub listed-put_segment :
    (over : Bool) (r d : ℕ) (seg vs : List ℕ)
    → listed d (put_segment over r seg vs) ≡ listed d seg || listed d vs
unfolding listed
listed-put_segment over r d seg [] = ground arith
listed-put_segment over r d seg (v ∷ vs) =
    ground (arith, listed-++ d seg vs, listed-++ d seg (v ∷ vs), listed-put_segment over r d seg vs)

distinct-unlink :
    (c : ℕ) (vs : List ℕ)
    → distinct vs ≡ true
    → (distinct (unlink c vs) ≡ true) × (listed c (unlink c vs) ≡ false)
unfolding unlink listed
distinct-unlink c [] d = ground arith
distinct-unlink c (v ∷ vs) d = ground (arith, d, distinct-unlink c vs, listed-unlink v c vs)

pub distinct-put_segment :
    (over : Bool) (r c : ℕ) (vs : List ℕ)
    → distinct vs ≡ true
    → listed c vs ≡ false
    → distinct (put_segment over r (c ∷ []) vs) ≡ true
unfolding listed
distinct-put_segment over r c [] d a = ground arith
distinct-put_segment over r c (v ∷ vs) d a =
    ground (arith, d, a, distinct-put_segment over r c vs, listed-put_segment over r v (c ∷ []) vs)

stays_unlisted : (d c : ℕ) (vs : List ℕ) → listed d vs ≡ false → listed d (unlink c vs) ≡ false
unfolding unlink listed
stays_unlisted d c [] a = refl
stays_unlisted d c (v ∷ vs) a = ground (arith, a, stays_unlisted d c vs)

pub listed-unlink_all :
    (d : ℕ) (cs vs : List ℕ) → listed d vs ≡ false → listed d (unlink_all cs vs) ≡ false
listed-unlink_all d [] vs a = a
listed-unlink_all d (c ∷ cs) vs a = listed-unlink_all d cs (unlink c vs) (stays_unlisted d c vs a)

-- No number of the one list is in the other.
abbrev pub disjoint : List ℕ → List ℕ → Bool
disjoint [] seg = true
disjoint (c ∷ cs) seg = not (listed c seg) && disjoint cs seg

pub unlink_all-put_segment :
    (over : Bool) (r : ℕ) (cs seg vs : List ℕ)
    → listed r cs ≡ false
    → disjoint cs seg ≡ true
    → unlink_all cs (put_segment over r seg vs) ≡ put_segment over r seg (unlink_all cs vs)
unfolding listed
unlink_all-put_segment over r [] seg vs a j = refl
unlink_all-put_segment over r (c ∷ cs) seg vs a j = ground (
  arith,
  a,
  j,
  unlink-put_segment over r c seg vs,
  unlink_all-put_segment over r cs seg (unlink c vs),
)

-- A segment beside one that has been put in, and both together
put_segment-grown_under :
    (r c : ℕ) (seg vs : List ℕ)
    → r ≢ c
    → listed c vs ≡ false
    → put_segment false c seg (put_segment false r (c ∷ []) vs) ≡ put_segment false r (c ∷ seg) vs
unfolding listed
put_segment-grown_under r c seg [] n a = ground (arith, append-nil seg)
put_segment-grown_under r c seg (v ∷ vs) n a =
    ground (arith, n, a, put_segment-grown_under r c seg vs n)

put_segment-grown_over :
    (r c : ℕ) (seg vs : List ℕ)
    → r ≢ c
    → listed c vs ≡ false
    → put_segment true c seg (put_segment true r (c ∷ []) vs)
      ≡ put_segment true r (seg ++ (c ∷ [])) vs
unfolding listed
put_segment-grown_over r c seg [] n a = ground arith
put_segment-grown_over r c seg (v ∷ vs) n a =
    ground (arith, n, a, put_segment-grown_over r c seg vs n, append_assoc seg (c ∷ []) (v ∷ vs))

abbrev pub oriented : Bool → List ℕ → List ℕ
oriented over cs = if over then reverse cs else cs

pub put_segment-grown :
    (over : Bool) (r c : ℕ) (cs vs : List ℕ)
    → r ≢ c
    → listed c vs ≡ false
    → put_segment over c (oriented over cs) (put_segment over r (c ∷ []) vs)
      ≡ put_segment over r (oriented over (c ∷ cs)) vs
put_segment-grown true r c cs vs n a =
    put_segment-grown_over r c (reverse cs) vs n a
    ∙ ap (λ (seg : List ℕ). put_segment true r seg vs) (sym (reverse-cons c cs))
put_segment-grown false r c cs vs n a = put_segment-grown_under r c cs vs n a

put_segment_nothing : (over : Bool) (r : ℕ) (vs : List ℕ) → put_segment over r [] vs ≡ vs
put_segment_nothing over r [] = refl
put_segment_nothing over r (v ∷ vs) = ground (arith, put_segment_nothing over r vs)

-- The loop that restacks the children, over their numbers alone
abbrev pub place_all : Bool → List ℕ → ℕ → List ℕ → List ℕ
place_all over [] r vs = vs
place_all over (c ∷ cs) r vs = place_all over cs c (put_segment over r (c ∷ []) (unlink c vs))

disjoint-one : (c : ℕ) (cs : List ℕ) → listed c cs ≡ false → disjoint cs (c ∷ []) ≡ true
unfolding listed
disjoint-one c [] a = refl
disjoint-one c (d ∷ cs) a = ground (arith, a, disjoint-one c cs)

pub place_all-distinct :
    (over : Bool) (r : ℕ) (cs vs : List ℕ)
    → distinct vs ≡ true
    → distinct (place_all over cs r vs) ≡ true
place_all-distinct over r [] vs d = d
place_all-distinct over r (c ∷ cs) vs d =
    let (d', a) = distinct-unlink c vs d in
    place_all-distinct over c cs (put_segment over r (c ∷ []) (unlink c vs))
      (distinct-put_segment over r c (unlink c vs) d' a)

-- The loop moves the numbers, as one segment, beside the first reference.
pub place_all-segment :
    (over : Bool) (r : ℕ) (cs vs : List ℕ)
    → distinct (r ∷ cs) ≡ true
    → distinct vs ≡ true
    → place_all over cs r vs ≡ put_segment over r (oriented over cs) (unlink_all cs vs)
unfolding listed
place_all-segment true r [] vs j d = sym (put_segment_nothing true r vs)
place_all-segment false r [] vs j d = sym (put_segment_nothing false r vs)
place_all-segment over r (c ∷ cs) vs j d =
    let (d', a) = distinct-unlink c vs d in
    let others = unlink c vs in
    let n : r ≢ c = λ e. ground (arith, e, j) in
    let step : unlink_all cs (put_segment over r (c ∷ []) others)
        ≡ put_segment over r (c ∷ []) (unlink_all cs others) =
      unlink_all-put_segment over r cs (c ∷ []) others (ground (arith, j))
        (disjoint-one c cs (ground (arith, j))) in
    place_all-segment over c cs (put_segment over r (c ∷ []) others) (ground (arith, j))
      (distinct-put_segment over r c others d' a)
    ∙ ap (λ (ws : List ℕ). put_segment over c (oriented over cs) ws) step
    ∙ put_segment-grown over r c cs (unlink_all cs others) n (listed-unlink_all c cs others a)
