-- ===== src/Subsurface.antt =====
-- libswc/subsurface.c: the subsurfaces of a surface, their order and their place.
-- A surface, its view and the subsurface that it has are known by one number. The views stand in the
-- list of the compositor; what else is asked of it is a log, newest first.
pub mod Commit
pub mod Siblings
pub mod Segments
pub mod Sides
pub mod Ordered
pub mod Roles
mod Tests
use neoswc.Prelude.{
  ℕ, ◌≡◌, Bool, true, false, not, ◌&&◌, Option, none, some, List, [], ◌∷◌, ◌++◌, ◌==◌,
  if◌then◌else◌,
}
use neoswc.Prelude.Int.{ℤ, ◌+ℤ◌, ◌-ℤ◌}
use neoswc.Stacking.{View, restack}
use mathlib.Core.List.{reverse}

-- `struct subsurface`, with whether its surface has a buffer
pub record Subsurface : Type 0 where
  pub surface : ℕ
  pub x : ℤ
  pub y : ℤ
  pub pending_x : ℤ
  pub pending_y : ℤ
  pub pending_position : Bool
  pub sync : Bool
  pub pending : Bool
  pub added : Bool
  pub has_buffer : Bool

-- The view of the parent: its place and the offset of its buffer
pub record ParentView : Type 0 where
  pub x : ℤ
  pub y : ℤ
  pub buffer_offset_x : ℤ
  pub buffer_offset_y : ℤ

pub data Call : Type 0 where
  view_move : ℕ → ℤ → ℤ → Call
  view_show view_hide : ℕ → Call

-- `struct surface`, of the parent: its subsurfaces, newest first, and their order, the lowest first,
-- below and above it, as requested and as committed
pub record Parent : Type 0 where
  pub surface : ℕ
  pub view : ParentView
  pub subsurfaces : List Subsurface
  pub pending_below : List ℕ
  pub pending_above : List ℕ
  pub below : List ℕ
  pub above : List ℕ

-- Whether the loops of `subsurface_find_sibling` come across the surface
unfoldable pub listed : ℕ → List ℕ → Bool
listed i [] = false
listed i (c ∷ cs) = if c == i then true else listed i cs

-- `wl_list_remove(&subsurface->pending_link)`
unfoldable pub unlink : ℕ → List ℕ → List ℕ
unlink i [] = []
unlink i (c ∷ cs) = if c == i then cs else c ∷ unlink i cs

-- An insertion behind or before the link of a sibling, if that is in the list
unfoldable pub link_beside : Bool → ℕ → ℕ → List ℕ → List ℕ
link_beside behind sibling i [] = []
link_beside behind sibling i (c ∷ cs) =
    if c == sibling
    then if behind then c ∷ i ∷ cs else i ∷ c ∷ cs
    else c ∷ link_beside behind sibling i cs

pub data Sibling : Type 0 where
  invalid parent_itself sibling : Sibling

-- `is_valid_sibling`, with `subsurface_find_sibling`, while the parent is there
unfoldable pub is_valid_sibling : Parent → ℕ → ℕ → Sibling
is_valid_sibling p i other =
    if other == i
    then invalid
    else if other == p.surface
    then parent_itself
    else if listed other p.pending_below
    then sibling
    else if listed other p.pending_above
    then sibling
    else invalid

pub data Answer : Type 0 where
  placed bad_surface : Answer

-- The parent once the subsurface is out of both lists, and put at an end or beside a sibling
abbrev put_above_parent : Parent → ℕ → Parent
put_above_parent p i = record p {
  pending_below = unlink i p.pending_below;
  pending_above = i ∷ unlink i p.pending_above;
}

abbrev put_below_parent : Parent → ℕ → Parent
put_below_parent p i = record p {
  pending_below = unlink i p.pending_below ++ (i ∷ []);
  pending_above = unlink i p.pending_above;
}

abbrev put_beside : Bool → Parent → ℕ → ℕ → Parent
put_beside behind p i other = record p {
  pending_below = link_beside behind other i (unlink i p.pending_below);
  pending_above = link_beside behind other i (unlink i p.pending_above);
}

-- `place_above`
unfoldable pub place_above : Parent → ℕ → ℕ → Parent × Answer
place_above p i other = elim (is_valid_sibling p i other) [
  | invalid ↦ (p, bad_surface)
  | parent_itself ↦ (put_above_parent p i, placed)
  | sibling ↦ (put_beside true p i other, placed)
]

-- `place_below`
unfoldable pub place_below : Parent → ℕ → ℕ → Parent × Answer
place_below p i other = elim (is_valid_sibling p i other) [
  | invalid ↦ (p, bad_surface)
  | parent_itself ↦ (put_below_parent p i, placed)
  | sibling ↦ (put_beside false p i other, placed)
]
