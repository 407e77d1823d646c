-- ===== src/Surface/Tree/Shown.antt =====
-- libswc/surface.c: proofs about what the views show while a tree is held, and after its release.
use neoswc.Prelude.{
  ℕ, ◌≡◌, refl, ap, ◌∙◌, Bool, true, false, ◌||◌, none, some, List, [], ◌∷◌, arith,
}
use neoswc.Surface.{
  Regions, Surface, Request, apply_attach, apply_frame, apply_view, apply_calls, apply_regions,
  apply_own, apply_state, request_own, handle_frame, hold_own, attach, damage, frame,
  set_opaque_region, set_input_region,
}
use neoswc.Surface.Tree.{
  Forest, no_more, subsurface, Tree, Event, hold_forest, surface_hold_render,
  surface_release_render, on_forest, on_tree, flush_children, commit_in, commit, set_sync_in,
  set_sync, requested, committed, sync_set, frame_drawn, handle, run,
}
use neoswc.Surface.Tree.Held.{all_held, tree_held}
use neoswc.Surface.Tree.Replayed.{
  tree_free, views_in, views, held-handle, release-run, release-hold, held-hold,
}

module _ {R : Type 0} (regions : Regions R) where
  shown-apply :
      (s : Surface R)
      → s.render_hold.held ≡ true
      → ((apply_own regions s).shown ≡ s.shown) × ((apply_own regions s).updated ≡ s.updated)
  unfolding apply_own apply_state apply_attach apply_frame apply_view apply_calls apply_regions
  shown-apply s h = ground (arith, h)

  shown-request :
      (r : Request R) (s : Surface R)
      → ((request_own regions r s).shown ≡ s.shown)
        × ((request_own regions r s).updated ≡ s.updated)
  unfolding request_own
  shown-request (attach b) s = (refl, refl)
  shown-request (damage rect) s = (refl, refl)
  shown-request (frame c) s = (refl, refl)
  shown-request (set_opaque_region none) s = (refl, refl)
  shown-request (set_opaque_region (some r)) s = (refl, refl)
  shown-request (set_input_region none) s = (refl, refl)
  shown-request (set_input_region (some r)) s = (refl, refl)

  views-flush :
      (b : Bool) (f : Forest R)
      → all_held f ≡ true
      → views_in (flush_children regions b f) ≡ views_in f
  unfolding flush_children
  views-flush b no_more h = refl
  views-flush b (subsurface i sync pending s below others) h =
      ground (arith, h, shown-apply s, views-flush true below, views-flush b others)

  views-commit_in :
      (n : ℕ) (b : Bool) (f : Forest R)
      → all_held f ≡ true
      → views_in (commit_in regions n b f) ≡ views_in f
  unfolding commit_in
  views-commit_in n b no_more h = refl
  views-commit_in n b (subsurface i sync pending s below others) h = ground (
    arith,
    h,
    shown-apply s,
    views-commit_in n (sync || b) below,
    views-flush false below,
    views-commit_in n b others,
  )

  views-set_sync_in :
      (n : ℕ) (c b : Bool) (f : Forest R)
      → all_held f ≡ true
      → views_in (set_sync_in regions n c b f) ≡ views_in f
  unfolding set_sync_in
  views-set_sync_in n c b no_more h = refl
  views-set_sync_in n c b (subsurface i sync pending s below others) h = ground (
    arith,
    h,
    shown-apply s,
    views-set_sync_in n c (sync || b) below,
    views-flush false below,
    views-set_sync_in n c b others,
  )

module _ {R : Type 0} (op : Surface R → Surface R)
    (quiet : (s : Surface R) → ((op s).shown ≡ s.shown) × ((op s).updated ≡ s.updated)) where
  views-on_forest : (n : ℕ) (f : Forest R) → views_in (on_forest n op f) ≡ views_in f
  unfolding on_forest
  views-on_forest n no_more = refl
  views-on_forest n (subsurface i sync pending s below others) =
      ground (arith, quiet s, views-on_forest n below, views-on_forest n others)

  views-on_tree : (n : ℕ) (t : Tree R) → views (on_tree n op t) ≡ views t
  unfolding on_tree
  views-on_tree n t = ground (arith, quiet t.surface, views-on_forest n t.children)

module _ {R : Type 0} where
  views-hold_forest : (f : Forest R) → views_in (hold_forest f) ≡ views_in f
  unfolding hold_forest hold_own
  views-hold_forest no_more = refl
  views-hold_forest (subsurface i sync pending s below others) =
      ground (arith, views-hold_forest below, views-hold_forest others)

  views-hold : (t : Tree R) → views (surface_hold_render t) ≡ views t
  unfolding surface_hold_render hold_own
  views-hold t = ground (arith, views-hold_forest t.children)

module _ {R : Type 0} (regions : Regions R) where
  views-handle :
      (e : Event R) (t : Tree R) → tree_held t ≡ true → views (handle regions e t) ≡ views t
  unfolding handle commit set_sync handle_frame
  views-handle (requested n r) t h =
      views-on_tree (request_own regions r) (shown-request regions r) n t
  views-handle (committed n) t h = ground (
    arith,
    h,
    shown-apply regions t.surface,
    views-flush regions false t.children,
    views-commit_in regions n false t.children,
  )
  views-handle (sync_set n b) t h =
      ground (arith, h, views-set_sync_in regions n b false t.children)
  views-handle (frame_drawn n) t h = views-on_tree handle_frame (λ _. (refl, refl)) n t

  views-run :
      (es : List (Event R)) (t : Tree R) → tree_held t ≡ true → views (run regions es t) ≡ views t
  views-run [] t h = refl
  views-run (e ∷ es) t h =
      views-run es (handle regions e t) (held-handle regions e t h) ∙ views-handle e t h

  -- While a tree of surfaces is held, whatever its clients request of any of them, commit, or make
  -- synchronised or not, no commit attaches another buffer to a view of it or asks the view to update;
  -- what subsurface.c does to a view when a commit calls it, to show, hide, move and order the
  -- subsurfaces, is not held back, and is not in `shown` and `updated`. Once the tree is released, it
  -- is in the state it would be in without the hold: each surface, what its view shows, what its client
  -- was told, and the calls of subsurface.c. Before the hold none of the surfaces was held.
  pub release-run-hold :
      (es : List (Event R)) (t : Tree R)
      → tree_free t ≡ true
      → let t' = run regions es (surface_hold_render t) in
        (views t' ≡ views t) × (surface_release_render t' ≡ run regions es t)
  release-run-hold es t h = (
    views-run es (surface_hold_render t) (held-hold t h) ∙ views-hold t,
    release-run regions es (surface_hold_render t) (held-hold t h)
        ∙ ap (run regions es) (release-hold t h),
  )
