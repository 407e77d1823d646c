-- ===== src/Selection/Live.antt =====
-- libswc/data.c: proofs that offers and the selection point at sources that are there.
use neoswc.Prelude.{
  ℕ, ◌≡◌, ◌≢◌, refl, ap, Bool, true, false, ◌&&◌, Option, none, some, List, [], ◌∷◌, ◌++◌, arith,
  option_ind, if_ind,
}
use neoswc.Selection.{
  Kind, Source, Offer, World, listed, without, set_source, source_of, source_new, source_offer,
  data_source_mark_used, clear_offers, data_destroy, drop_offer, unlink_from, offer_destroy,
  offer_new,
}

-- The source that an offer points at is there and has the offer in its list.
abbrev pub owns : Option Source → ℕ → Bool
owns none o = false
owns (some s) o = listed o s.offers

abbrev pub owned : (ℕ → Option Source) → Offer → Bool
owned sources f = elim f.source [ none ↦ true | some i ↦ owns (sources i) f.object ]

abbrev pub all_owned : (ℕ → Option Source) → List Offer → Bool
all_owned sources [] = true
all_owned sources (f ∷ fs) = owned sources f && all_owned sources fs

abbrev pub there : Option Source → Bool
there none = false
there (some s) = true

abbrev pub selected : (ℕ → Option Source) → Option ℕ → Bool
selected sources none = true
selected sources (some i) = there (sources i)

abbrev pub Inv : World → Type 0
Inv w = (all_owned w.sources w.offers ≡ true) × (selected w.sources w.selection ≡ true)

all_owned_mono :
    (s t : ℕ → Option Source)
    → ((i o : ℕ) → owns (s i) o ≡ true → owns (t i) o ≡ true)
    → (fs : List Offer) → all_owned s fs ≡ true
    → all_owned t fs ≡ true
all_owned_mono s t m [] h = refl
all_owned_mono s t m (f ∷ fs) h = grind (arith, h, m, all_owned_mono s t m fs)

selected_mono :
    (s t : ℕ → Option Source)
    → ((i : ℕ) → there (s i) ≡ true → there (t i) ≡ true)
    → (sel : Option ℕ) → selected s sel ≡ true
    → selected t sel ≡ true
selected_mono s t m none h = refl
selected_mono s t m (some i) h = m i h

-- Sources that stay, with the offers they have, or more, keep the invariant.
Inv_mono :
    (s t : ℕ → Option Source) (fs : List Offer) (sel : Option ℕ)
    → ((i o : ℕ) → owns (s i) o ≡ true → owns (t i) o ≡ true)
    → ((i : ℕ) → there (s i) ≡ true → there (t i) ≡ true)
    → (all_owned s fs ≡ true) × (selected s sel ≡ true)
    → (all_owned t fs ≡ true) × (selected t sel ≡ true)
Inv_mono s t fs sel m n v = (all_owned_mono s t m fs v.0, selected_mono s t n sel v.1)

pub source_new-Inv :
    (w : World) (kind : Kind) (i : ℕ)
    → there (w.sources i) ≡ false
    → Inv w
    → Inv (source_new w kind i)
unfolding source_new
source_new-Inv w kind i n v =
    let w' = source_new w kind i in
    Inv_mono w.sources w'.sources w.offers w.selection (λ j o h. grind (arith, h, n))
      (λ j h. grind (arith, h, n)) v

pub source_offer-Inv : (w : World) (i mime : ℕ) → Inv w → Inv (source_offer w i mime)
unfolding source_offer
source_offer-Inv w i mime v =
    option_ind Inv (w.sources i) (λ n. v)
      (λ s e.
        Inv_mono w.sources
          (set_source w.sources i (some (record s { mime_types = s.mime_types ++ (mime ∷ []) })))
          w.offers w.selection (λ j o h. grind (arith, h, e)) (λ j h. grind (arith, h, e)) v)

pub data_source_mark_used-Inv : (w : World) (i : ℕ) → Inv w → Inv (data_source_mark_used w i).0
unfolding data_source_mark_used
data_source_mark_used-Inv w i v =
    option_ind (λ (r : World × Bool). Inv r.0) (w.sources i) (λ n. v)
      (λ s e.
        if_ind (λ (r : World × Bool). Inv r.0) s.used (λ u. v)
          (λ u.
            Inv_mono w.sources (set_source w.sources i (some (record s { used = true }))) w.offers
              w.selection (λ j o h. grind (arith, h, e)) (λ j h. grind (arith, h, e)) v))

pub offer_new-Inv : (w : World) (i o : ℕ) → Inv w → Inv (offer_new w i o)
unfolding offer_new
offer_new-Inv w i o v =
    option_ind Inv (w.sources i) (λ n. v)
      (λ s e.
        let (a, b) =
          Inv_mono w.sources (set_source w.sources i (some (record s { offers = o ∷ s.offers })))
            w.offers w.selection (λ j p h. grind (arith, h, e)) (λ j h. grind (arith, h, e)) v in
        (ground (arith, a), b))

clear_offers-owned :
    (sources : ℕ → Option Source) (i : ℕ) (s : Source) (fs : List Offer)
    → sources i ≡ some s
    → all_owned sources fs ≡ true
    → all_owned (set_source sources i none) (clear_offers s.offers fs) ≡ true
unfolding clear_offers
clear_offers-owned sources i s [] e h = refl
clear_offers-owned sources i s (f ∷ fs) e h = grind (arith, e, h, clear_offers-owned sources i s fs)

selected-destroyed :
    (sources : ℕ → Option Source) (i : ℕ) (sel : Option ℕ)
    → sel ≢ some i
    → selected sources sel ≡ true
    → selected (set_source sources i none) sel ≡ true
selected-destroyed sources i none n h = refl
selected-destroyed sources i (some j) n h =
    let m : j ≢ i = λ e. n (ap some e) in grind (arith, h, m)

pub data_destroy-Inv : (w : World) (i : ℕ) → w.selection ≢ some i → Inv w → Inv (data_destroy w i)
unfolding data_destroy
data_destroy-Inv w i n v =
    option_ind Inv (w.sources i) (λ _. v)
      (λ s e. (
        clear_offers-owned w.sources i s w.offers e v.0,
        selected-destroyed w.sources i w.selection n v.1,
      ))

listed-without : (j i : ℕ) (is : List ℕ) → j ≢ i → listed j (without i is) ≡ listed j is
listed-without j i [] n = refl
listed-without j i (k ∷ is) n = ground (arith, n, listed-without j i is)

drop_offer-owned :
    (sources : ℕ → Option Source) (r : Option ℕ) (o : ℕ) (fs : List Offer)
    → all_owned sources fs ≡ true
    → all_owned (unlink_from r o sources) (drop_offer o fs) ≡ true
unfolding drop_offer
drop_offer-owned sources r o [] h = refl
drop_offer-owned sources none o (f ∷ fs) h = grind (arith, h, drop_offer-owned sources none o fs)
drop_offer-owned sources (some i) o (f ∷ fs) h =
    grind (arith, h, drop_offer-owned sources (some i) o fs, listed-without)

selected-unlinked :
    (sources : ℕ → Option Source) (r : Option ℕ) (o : ℕ) (sel : Option ℕ)
    → selected sources sel ≡ true
    → selected (unlink_from r o sources) sel ≡ true
selected-unlinked sources none o sel h = h
selected-unlinked sources (some i) o none h = refl
selected-unlinked sources (some i) o (some j) h = grind (arith, h)

pub offer_destroy-Inv : (w : World) (o : ℕ) → Inv w → Inv (offer_destroy w o)
unfolding offer_destroy
offer_destroy-Inv w o v = (
  drop_offer-owned w.sources (source_of o w.offers) o w.offers v.0,
  selected-unlinked w.sources (source_of o w.offers) o w.selection v.1,
)
