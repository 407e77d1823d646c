-- ===== src/Surface/Tests.antt =====
-- A window with two subsurfaces, one on the other, and the theorems at it.
use neoswc.Prelude.{ℕ, ◌+◌, ◌≡◌, refl, true, false, none, some, List, [], ◌∷◌, ◌++◌}
use neoswc.Prelude.Int.{pos}
use neoswc.Prelude.Machine.{min_u32, max_u32}
use neoswc.Surface.{
  Regions, State, Surface, no_flags, no_hold, apply_own, request_own, attach, damage, frame,
}
use neoswc.Surface.Tree.{
  no_more, subsurface, Tree, Event, surface_hold_render, surface_release_render, commit_in, commit,
  on_forest, on_tree, handle, run, requested, committed, sync_set, frame_drawn,
}
use neoswc.Surface.Tree.Replayed.{views}
use neoswc.Surface.Tree.Shown.{release-run-hold}
use neoswc.Surface.Tree.Cached.{states, surfaces, each, all_pending, run-commit}
use neoswc.Surface.Tree.Callbacks.{callbacks_of, asked_all, callbacks-run}

-- Regions that begin at the origin, by their width and height
abbrev Size : Type 0
Size = ℕ × ℕ

abbrev sizes : Regions Size
sizes = record {
  clear = (0, 0);
  infinite = (4294967295, 4294967295);
  union = λ a b. (max_u32 a.0 b.0, max_u32 a.1 b.1);
  union_rect = λ a r. (max_u32 a.0 r.width, max_u32 a.1 r.height);
  intersect_size = λ a w h. (min_u32 a.0 w, min_u32 a.1 h);
  width = λ b. 100 + b;
  height = λ b. 50;
}

abbrev empty : State Size
empty = record {
  buffer = none;
  damage = (0, 0);
  opaque_region = (0, 0);
  input = (4294967295, 4294967295);
  frame_callbacks = [];
}

abbrev fresh : Surface Size
fresh = record {
  state = empty;
  pending = empty;
  commit = no_flags;
  has_view = true;
  is_subsurface = true;
  render_hold = no_hold;
  shown = none;
  updated = false;
  released = [];
  done = [];
  calls = [];
}

-- 1 is the window, 2 its subsurface, and 3 the subsurface of 2.
abbrev window : Tree Size
window = record {
  id = 1;
  surface = record fresh { is_subsurface = false };
  children = subsurface 2 true false fresh (subsurface 3 true false fresh no_more no_more) no_more;
}

abbrev drawing : List (Event Size)
drawing =
    requested 3 (attach (some 7))
    ∷ requested 3 (frame 40)
    ∷ committed 3
    ∷ requested 2 (attach (some 8))
    ∷ requested 2 (damage (record { x = pos 0; y = pos 0; width = 20; height = 30 }))
    ∷ committed 2
    ∷ requested 1 (attach (some 9))
    ∷ []

-- The window commits, a frame is drawn of 3, and its client goes on.
abbrev shown : List (Event Size)
shown =
    committed 1
    ∷ frame_drawn 3
    ∷ requested 3 (frame 41)
    ∷ requested 3 (attach (some 6))
    ∷ sync_set 3 false
    ∷ sync_set 2 false
    ∷ committed 3
    ∷ []

release-run-hold_example :
    let t' = run sizes (drawing ++ shown) (surface_hold_render window) in
    (views t' ≡ views window) × (surface_release_render t' ≡ run sizes (drawing ++ shown) window)
release-run-hold_example = release-run-hold sizes (drawing ++ shown) window refl

drawing_pending : all_pending (run sizes drawing window).children ≡ true
unfolding handle commit commit_in on_tree on_forest request_own
drawing_pending = refl

run-commit_example :
    let t' = run sizes drawing window in
    (states t' ≡ states window)
    × (surfaces (commit sizes 1 t') ≡ each (apply_own sizes) (surfaces t'))
run-commit_example = run-commit sizes drawing window refl refl drawing_pending

callbacks-run_example :
    callbacks_of 40 (run sizes shown (run sizes drawing window))
    ≡ callbacks_of 40 (run sizes drawing window)
      + asked_all sizes 40 shown (run sizes drawing window)
callbacks-run_example = callbacks-run sizes 40 shown (run sizes drawing window)
