-- ===== src/Surface/Tree/Replayed.antt =====
-- libswc/surface.c: proofs about a hold of a whole tree, from its start to its release.
use neoswc.Prelude.{
  ℕ, ◌≡◌, refl, ap, ◌∙◌, Bool, true, false, not, ◌&&◌, Option, List, [], ◌∷◌, ◌++◌, arith,
}
use neoswc.Surface.{Regions, Surface, request_own, handle_frame, hold_own, release_own}
use neoswc.Surface.Tree.{
  Forest, no_more, subsurface, Tree, Event, hold_forest, release_forest, surface_hold_render,
  surface_release_render, commit, set_sync, requested, committed, sync_set, frame_drawn, handle,
  run,
}
use neoswc.Surface.Tree.Held.{
  release-apply, release-request, release-frame, held-apply, held-request, all_held, tree_held,
  held-flush, release-flush, release-commit_in, held-commit_in, release-set_sync_in,
  held-set_sync_in, release-on_tree, held-on_tree,
}

module _ {R : Type 0} (regions : Regions R) where
  release-handle :
      (e : Event R) (t : Tree R)
      → tree_held t ≡ true
      → surface_release_render (handle regions e t) ≡ handle regions e (surface_release_render t)
  unfolding handle commit set_sync handle_frame surface_release_render
  release-handle (requested n r) t h =
      release-on_tree (request_own regions r) (held-request regions r) (release-request regions r) n
        t h
  release-handle (committed n) t h = ground (
    arith,
    h,
    held-apply regions t.surface,
    release-apply regions t.surface,
    release-flush regions false t.children,
    release-commit_in regions n false t.children,
  )
  release-handle (sync_set n b) t h =
      ground (arith, h, release-set_sync_in regions n b false t.children)
  release-handle (frame_drawn n) t h =
      release-on_tree handle_frame (λ _. refl) (release-frame regions) n t h

  pub held-handle :
      (e : Event R) (t : Tree R) → tree_held t ≡ true → tree_held (handle regions e t) ≡ true
  unfolding handle commit set_sync handle_frame
  held-handle (requested n r) t h =
      held-on_tree (request_own regions r) (held-request regions r) (release-request regions r) n t
        h
  held-handle (committed n) t h = ground (
    arith,
    h,
    held-apply regions t.surface,
    held-flush regions false t.children,
    held-commit_in regions n false t.children,
  )
  held-handle (sync_set n b) t h = ground (arith, h, held-set_sync_in regions n b false t.children)
  held-handle (frame_drawn n) t h =
      held-on_tree handle_frame (λ _. refl) (release-frame regions) n t h

  pub release-run :
      (es : List (Event R)) (t : Tree R)
      → tree_held t ≡ true
      → surface_release_render (run regions es t) ≡ run regions es (surface_release_render t)
  release-run [] t h = refl
  release-run (e ∷ es) t h =
      release-run es (handle regions e t) (held-handle e t h)
      ∙ ap (run regions es) (release-handle e t h)

module _ {R : Type 0} where
  -- No surface is held, nor has anything recorded for the end of a hold.
  abbrev pub free : Surface R → Bool
  free s = not s.render_hold.held && (not s.render_hold.attach && not s.render_hold.update)

  abbrev pub all_free : Forest R → Bool
  all_free no_more = true
  all_free (subsurface i sync pending s below others) =
      free s && (all_free below && all_free others)

  abbrev pub tree_free : Tree R → Bool
  tree_free t = free t.surface && all_free t.children

  -- Which buffers the views of the tree show, and whether they were asked to update
  abbrev pub views_in : Forest R → List (Option ℕ × Bool)
  views_in no_more = []
  views_in (subsurface i sync pending s below others) =
      (s.shown, s.updated) ∷ (views_in below ++ views_in others)

  abbrev pub views : Tree R → List (Option ℕ × Bool)
  views t = (t.surface.shown, t.surface.updated) ∷ views_in t.children

  release-hold_own : (s : Surface R) → free s ≡ true → release_own (hold_own s) ≡ s
  unfolding release_own hold_own
  release-hold_own s h = ground (arith, h)

  release-hold_forest : (f : Forest R) → all_free f ≡ true → release_forest (hold_forest f) ≡ f
  unfolding release_forest hold_forest hold_own
  release-hold_forest no_more h = refl
  release-hold_forest (subsurface i sync pending s below others) h =
      ground (arith, h, release-hold_own s, release-hold_forest below, release-hold_forest others)

  held-hold_forest : (f : Forest R) → all_free f ≡ true → all_held (hold_forest f) ≡ true
  unfolding hold_forest hold_own
  held-hold_forest no_more h = refl
  held-hold_forest (subsurface i sync pending s below others) h =
      ground (arith, h, held-hold_forest below, held-hold_forest others)

  pub release-hold :
      (t : Tree R) → tree_free t ≡ true → surface_release_render (surface_hold_render t) ≡ t
  unfolding surface_hold_render surface_release_render hold_own
  release-hold t h = ground (arith, h, release-hold_own t.surface, release-hold_forest t.children)

  pub held-hold : (t : Tree R) → tree_free t ≡ true → tree_held (surface_hold_render t) ≡ true
  unfolding surface_hold_render hold_own
  held-hold t h = ground (arith, h, held-hold_forest t.children)
