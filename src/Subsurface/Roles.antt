-- ===== src/Subsurface/Roles.antt =====
-- libswc/subcompositor.c and libswc/subsurface.c: which surface is a subsurface of which.
-- The loops that climb from a surface to its parents run on fuel; without enough they give none.
pub mod Climbs
pub mod Ends
use neoswc.Prelude.{
  ℕ, zero, suc, ◌≡◌, ◌≢◌, Bool, true, false, not, Option, none, some, ◌==◌, if◌then◌else◌,
}

-- `struct subsurface`, as the other surfaces see it
pub record Role : Type 0 where
  pub parent : Option ℕ
  pub sync : Bool
  pub pending : Bool

-- `surface->subsurface` of each surface
abbrev pub Roles : Type 0
Roles = ℕ → Option Role

-- `surface->subsurface->parent`, if the surface is a subsurface and its parent is there
abbrev pub parent_in : Option Role → Option ℕ
parent_in none = none
parent_in (some r) = r.parent

-- `is_descendant_of`
unfoldable pub is_descendant_of : ℕ → Roles → ℕ → ℕ → Option Bool
is_descendant_of zero roles ancestor n = none
is_descendant_of (suc fuel) roles ancestor n = elim (parent_in (roles n)) [
  | none ↦ some false
  | some p ↦
      let rest = is_descendant_of fuel roles ancestor p in if p == ancestor then some true else rest
]

abbrev sync_of : Option Role → Bool
sync_of none = false
sync_of (some r) = r.sync

-- `subsurface_is_synchronized` of the subsurface that a surface has
unfoldable pub subsurface_is_synchronized : ℕ → Roles → ℕ → Option Bool
subsurface_is_synchronized zero roles n = none
subsurface_is_synchronized (suc fuel) roles n =
    if sync_of (roles n) then some true else elim (parent_in (roles n)) [
      | none ↦ some false
      | some p ↦ subsurface_is_synchronized fuel roles p
    ]

pub data Answer : Type 0 where
  created bad_parent bad_surface no_memory : Answer

abbrev pub with_role : Roles → ℕ → Option Role → Roles
with_role roles n r = λ m. if m == n then r else roles m

-- `get_subsurface` of a surface and a parent that are there; `allocated` is for all memory.
unfoldable pub get_subsurface : ℕ → Roles → ℕ → ℕ → Bool → Option (Roles × Answer)
get_subsurface fuel roles n p allocated =
    if n == p then some (roles, bad_parent) else elim (is_descendant_of fuel roles n p) [
      | none ↦ none
      | some true ↦ some (roles, bad_parent)
      | some false ↦ elim (roles n) [
        | some _ ↦ some (roles, bad_surface)
        | none ↦
            if not allocated
            then some (roles, no_memory)
            else some (
              with_role roles n (some (record { parent = some p; sync = true; pending = false })),
              created,
            )
      ]
    ]

-- `subsurface_destroy`
unfoldable pub subsurface_destroy : Roles → ℕ → Roles
subsurface_destroy roles n = with_role roles n none

abbrev pub orphaned : ℕ → Role → Role
orphaned n r = elim r.parent [
  | none ↦ r
  | some p ↦ if p == n then record r { parent = none } else r
]

-- `handle_parent_destroy` of each subsurface of the surface
unfoldable pub handle_parent_destroy : Roles → ℕ → Roles
handle_parent_destroy roles n = λ m. elim (roles m) [ none ↦ none | some r ↦ some (orphaned n r) ]

-- `set_sync`, and the first part of `set_desync`
unfoldable pub set_sync : Roles → ℕ → Bool → Roles
set_sync roles n b = elim (roles n) [
  | none ↦ roles
  | some r ↦ with_role roles n (some (record r { sync = b }))
]
