-- ===== src/Selection.antt =====
-- libswc/data.c, libswc/data_device.c and libswc/data_control.c: the selection, its sources and offers.
-- Objects are numbers. `sent` is what the clients are told and which descriptors are closed, newest
-- first; `can_make` says of which numbers libwayland can make a new offer.
pub mod Devices
pub mod Live
pub mod Kept
pub mod Told
mod Tests
use neoswc.Prelude.{
  ℕ, ◌+◌, Bool, true, false, not, ◌&&◌, ◌||◌, Option, none, some, List, [], ◌∷◌, ◌++◌, ◌==◌,
  if◌then◌else◌,
}

-- `enum source_kind`
pub data Kind : Type 0 where
  source_wl_data source_data_control : Kind

-- `struct data`, of a source
pub record Source : Type 0 where
  pub kind : Kind
  pub mime_types : List ℕ
  pub used : Bool
  pub offers : List ℕ

-- An offer, with the source that its user data points at
pub record Offer : Type 0 where
  pub object : ℕ
  pub source : Option ℕ

pub data Message : Type 0 where
  cancelled_sent : Kind → ℕ → Message
  send_sent : Kind → ℕ → ℕ → ℕ → Message
  target_sent : ℕ → ℕ → Message
  closed : ℕ → Message
  data_offer_sent : ℕ → ℕ → Message
  mime_sent : ℕ → ℕ → Message
  selection_sent : ℕ → Option ℕ → Message
  no_memory : ℕ → Message
  used_source : ℕ → Message

-- `struct data_control_device`
pub record ControlDevice : Type 0 where
  pub object : ℕ
  pub offer : Option ℕ

-- `struct data_device`: its selection, the object of the client with the keyboard, if it has one, and
-- the devices of data-control, the first one first; with all sources and offers
pub record World : Type 0 where
  pub sources : ℕ → Option Source
  pub offers : List Offer
  pub selection : Option ℕ
  pub focused : Option ℕ
  pub control_devices : List ControlDevice
  pub next : ℕ
  pub sent : List Message

abbrev pub set_source : (ℕ → Option Source) → ℕ → Option Source → ℕ → Option Source
set_source sources i s = λ j. if j == i then s else sources j

abbrev pub listed : ℕ → List ℕ → Bool
listed i [] = false
listed i (j ∷ js) = j == i || listed i js

abbrev pub without : ℕ → List ℕ → List ℕ
without i [] = []
without i (j ∷ js) = if j == i then without i js else j ∷ without i js

-- The source of an offer; none also if there is no such offer
unfoldable pub source_of : ℕ → List Offer → Option ℕ
source_of o [] = none
source_of o (f ∷ fs) = if f.object == o then f.source else source_of o fs

abbrev new_source : Kind → Source
new_source kind = record { kind = kind; mime_types = []; used = false; offers = [] }

-- `data_source_new` and `data_control_source_new`, of an object that could be made
unfoldable pub source_new : World → Kind → ℕ → World
source_new w kind i = record w { sources = set_source w.sources i (some (new_source kind)) }

-- `source_offer`, where memory is there
unfoldable pub source_offer : World → ℕ → ℕ → World
source_offer w i mime = elim (w.sources i) [
  | none ↦ w
  | some s ↦ record w {
    sources = set_source w.sources i (some (record s { mime_types = s.mime_types ++ (mime ∷ []) }));
  }
]

-- `data_source_mark_used`
unfoldable pub data_source_mark_used : World → ℕ → World × Bool
data_source_mark_used w i = elim (w.sources i) [
  | none ↦ (w, false)
  | some s ↦
      if s.used
      then (w, false)
      else (record w { sources = set_source w.sources i (some (record s { used = true })) }, true)
]

-- `source_send`, which closes the descriptor
abbrev source_send : Kind → ℕ → ℕ → ℕ → List Message → List Message
source_send kind i mime fd sent = closed fd ∷ send_sent kind i mime fd ∷ sent

abbrev pub kind_of : Option Source → Kind
kind_of none = source_wl_data
kind_of (some s) = s.kind

-- `offer_receive` and `data_control_offer_receive`
unfoldable pub offer_receive : World → ℕ → ℕ → ℕ → World
offer_receive w o mime fd = elim (source_of o w.offers) [
  | none ↦ record w { sent = closed fd ∷ w.sent }
  | some i ↦ record w { sent = source_send (kind_of (w.sources i)) i mime fd w.sent }
]

abbrev pub is_wl_data : Kind → Bool
is_wl_data source_wl_data = true
is_wl_data source_data_control = false

-- `offer_accept`
unfoldable pub offer_accept : World → ℕ → ℕ → World
offer_accept w o mime = elim (source_of o w.offers) [
  | none ↦ w
  | some i ↦
      if is_wl_data (kind_of (w.sources i))
      then record w { sent = target_sent i mime ∷ w.sent }
      else w
]

-- The loop of `data_destroy`: the offers of the source lose their data.
unfoldable pub clear_offers : List ℕ → List Offer → List Offer
clear_offers os [] = []
clear_offers os (f ∷ fs) =
    (if listed f.object os then record f { source = none } else f) ∷ clear_offers os fs

-- `data_destroy`
unfoldable pub data_destroy : World → ℕ → World
data_destroy w i = elim (w.sources i) [
  | none ↦ w
  | some s ↦ record w {
    sources = set_source w.sources i none;
    offers = clear_offers s.offers w.offers;
  }
]

unfoldable pub drop_offer : ℕ → List Offer → List Offer
drop_offer o [] = []
drop_offer o (f ∷ fs) = if f.object == o then drop_offer o fs else f ∷ drop_offer o fs

abbrev unlink_from : Option ℕ → ℕ → (ℕ → Option Source) → ℕ → Option Source
unlink_from none o sources = sources
unlink_from (some i) o sources = λ j. elim (sources j) [
  | none ↦ none
  | some s ↦ if j == i then some (record s { offers = without o s.offers }) else some s
]

-- The destruction of an offer: `remove_resource`, unless it has lost its destructor
unfoldable pub offer_destroy : World → ℕ → World
offer_destroy w o = record w {
  sources = unlink_from (source_of o w.offers) o w.sources;
  offers = drop_offer o w.offers;
}

-- `data_offer_new` and `data_control_offer_new`, of an object that could be made
unfoldable pub offer_new : World → ℕ → ℕ → World
offer_new w i o = elim (w.sources i) [
  | none ↦ w
  | some s ↦ record w {
    sources = set_source w.sources i (some (record s { offers = o ∷ s.offers }));
    offers = record { object = o; source = some i } ∷ w.offers;
  }
]
