-- ===== src/Surface/Tree.antt =====
-- libswc/surface.c and libswc/subsurface.c: commits and the render hold on a tree of surfaces.
-- Whether a subsurface is synchronised is passed down the tree, from parent to child.
pub mod Held
pub mod Replayed
pub mod Shown
pub mod Cached
pub mod Callbacks
use neoswc.Prelude.{
  ℕ, Bool, true, false, not, ◌&&◌, ◌||◌, Option, none, some, List, [], ◌∷◌, ◌++◌, ◌==◌,
  if◌then◌else◌,
}
use neoswc.Surface.{
  Regions, State, Surface, Request, apply_own, request_own, handle_frame, hold_own, release_own,
}

-- The subsurfaces of a surface: the first one with its number, `sync` and `pending`, its surface and
-- the subsurfaces of that, and the others
pub data Forest (R : Type 0) : Type 0 where
  no_more : Forest R
  subsurface : ℕ → Bool → Bool → Surface R → Forest R → Forest R → Forest R

-- A surface that is no subsurface, with its subsurfaces
pub record Tree (R : Type 0) : Type 0 where
  pub id : ℕ
  pub surface : Surface R
  pub children : Forest R

module _ {R : Type 0} where
  -- `surface_hold_render` of each of the subsurfaces
  unfoldable pub hold_forest : Forest R → Forest R
  hold_forest no_more = no_more
  hold_forest (subsurface i sync pending s below others) =
      let below' = hold_forest below in
      let others' = hold_forest others in
      if s.render_hold.held
      then subsurface i sync pending s below others'
      else subsurface i sync pending (hold_own s) below' others'

  -- `surface_release_render` of each of them
  unfoldable pub release_forest : Forest R → Forest R
  release_forest no_more = no_more
  release_forest (subsurface i sync pending s below others) =
      let below' = release_forest below in
      let others' = release_forest others in
      if not s.render_hold.held
      then subsurface i sync pending s below others'
      else subsurface i sync pending (release_own s) below' others'

  -- `surface_hold_render`
  unfoldable pub surface_hold_render : Tree R → Tree R
  surface_hold_render t =
      if t.surface.render_hold.held
      then t
      else record t { surface = hold_own t.surface; children = hold_forest t.children }

  -- `surface_release_render`
  unfoldable pub surface_release_render : Tree R → Tree R
  surface_release_render t =
      if not t.surface.render_hold.held
      then t
      else record t { surface = release_own t.surface; children = release_forest t.children }

  -- What one surface of the tree does, by its number
  unfoldable pub on_forest : ℕ → (Surface R → Surface R) → Forest R → Forest R
  on_forest n f no_more = no_more
  on_forest n f (subsurface i sync pending s below others) =
      subsurface i sync pending (if i == n then f s else s) (on_forest n f below)
        (on_forest n f others)

  unfoldable pub on_tree : ℕ → (Surface R → Surface R) → Tree R → Tree R
  on_tree n f t = record t {
    surface = if t.id == n then f t.surface else t.surface;
    children = on_forest n f t.children;
  }

module _ {R : Type 0} (regions : Regions R) where
  -- The loop of `surface_apply_pending` over the subsurfaces of a surface, of which it is given
  -- whether it is synchronised itself
  unfoldable pub flush_children : Bool → Forest R → Forest R
  flush_children synced no_more = no_more
  flush_children synced (subsurface i sync pending s below others) =
      let below' = flush_children true below in
      let others' = flush_children synced others in
      if not pending || not (sync || synced)
      then subsurface i sync pending s below others'
      else subsurface i sync false (apply_own regions s) below' others'

  -- `commit` of one of the subsurfaces
  unfoldable pub commit_in : ℕ → Bool → Forest R → Forest R
  commit_in n synced no_more = no_more
  commit_in n synced (subsurface i sync pending s below others) =
      let below' = commit_in n (sync || synced) below in
      let flushed = flush_children false below in
      let others' = commit_in n synced others in
      if not (i == n)
      then subsurface i sync pending s below' others'
      else if sync || synced
      then subsurface i sync true s below others
      else subsurface i sync false (apply_own regions s) flushed others

  -- `commit`
  unfoldable pub commit : ℕ → Tree R → Tree R
  commit n t =
      if t.id == n
      then record t {
        surface = apply_own regions t.surface;
        children = flush_children false t.children;
      }
      else record t { children = commit_in n false t.children }

  -- `set_sync` and `set_desync` of one of the subsurfaces; the latter may commit what is pending.
  unfoldable pub set_sync_in : ℕ → Bool → Bool → Forest R → Forest R
  set_sync_in n b synced no_more = no_more
  set_sync_in n b synced (subsurface i sync pending s below others) =
      let below' = set_sync_in n b (sync || synced) below in
      let flushed = flush_children false below in
      let others' = set_sync_in n b synced others in
      if not (i == n)
      then subsurface i sync pending s below' others'
      else if not b && (sync && not synced) && pending
      then subsurface i b false (apply_own regions s) flushed others
      else subsurface i b pending s below others

  unfoldable pub set_sync : ℕ → Bool → Tree R → Tree R
  set_sync n b t = record t { children = set_sync_in n b false t.children }

-- What clients ask of the surfaces of a tree, and the frames that are drawn
pub data Event (R : Type 0) : Type 0 where
  requested : ℕ → Request R → Event R
  committed : ℕ → Event R
  sync_set : ℕ → Bool → Event R
  frame_drawn : ℕ → Event R

module _ {R : Type 0} (regions : Regions R) where
  unfoldable pub handle : Event R → Tree R → Tree R
  handle (requested n r) t = on_tree n (request_own regions r) t
  handle (committed n) t = commit regions n t
  handle (sync_set n b) t = set_sync regions n b t
  handle (frame_drawn n) t = on_tree n handle_frame t

  -- Events, the first one first
  abbrev pub run : List (Event R) → Tree R → Tree R
  run [] t = t
  run (e ∷ es) t = run es (handle e t)
