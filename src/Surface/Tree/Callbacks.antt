-- ===== src/Surface/Tree/Callbacks.antt =====
-- libswc/surface.c: proofs about the frame callbacks of a tree of surfaces.
use neoswc.Prelude.{
  ℕ, ◌+◌, ◌≡◌, refl, Bool, true, false, ◌||◌, none, some, List, [], ◌∷◌, ◌++◌, ◌==◌, arith,
  if◌then◌else◌,
}
use neoswc.Surface.{
  Regions, Surface, Request, apply_attach, apply_frame, apply_view, apply_calls, apply_regions,
  apply_own, apply_state, request_own, handle_frame, attach, damage, frame, set_opaque_region,
  set_input_region,
}
use neoswc.Surface.Tree.{
  Forest, no_more, subsurface, Tree, Event, on_forest, on_tree, flush_children, commit_in, commit,
  set_sync_in, set_sync, requested, committed, sync_set, frame_drawn, handle, run,
}

-- How often a number is in a list, and in a list of lists
abbrev pub count : ℕ → List ℕ → ℕ
count k [] = 0
count k (c ∷ cs) = (if c == k then 1 else 0) + count k cs

abbrev pub count_all : ℕ → List (List ℕ) → ℕ
count_all k [] = 0
count_all k (cs ∷ css) = count k cs + count_all k css

count-++ : (k : ℕ) (cs ds : List ℕ) → count k (cs ++ ds) ≡ count k cs + count k ds
count-++ k [] ds = omega arith
count-++ k (c ∷ cs) ds = ground (arith, count-++ k cs ds)

module _ {R : Type 0} where
  -- A callback of a surface is requested, committed or answered.
  abbrev pub callbacks : ℕ → Surface R → ℕ
  callbacks k s =
      count k s.pending.frame_callbacks + count k s.state.frame_callbacks + count_all k s.done

  abbrev pub callbacks_in : ℕ → Forest R → ℕ
  callbacks_in k no_more = 0
  callbacks_in k (subsurface i sync pending s below others) =
      callbacks k s + callbacks_in k below + callbacks_in k others

  abbrev pub callbacks_of : ℕ → Tree R → ℕ
  callbacks_of k t = callbacks k t.surface + callbacks_in k t.children

  abbrev pub asked_by : ℕ → Request R → ℕ
  asked_by k (attach b) = 0
  asked_by k (damage rect) = 0
  asked_by k (frame c) = if c == k then 1 else 0
  asked_by k (set_opaque_region r) = 0
  asked_by k (set_input_region r) = 0

  -- How often a request to the surfaces with a number asks for the callback
  abbrev pub asked_in : ℕ → ℕ → Request R → Forest R → ℕ
  asked_in k n r no_more = 0
  asked_in k n r (subsurface i sync pending s below others) =
      (if i == n then asked_by k r else 0) + asked_in k n r below + asked_in k n r others

  abbrev pub asked : ℕ → Event R → Tree R → ℕ
  asked k (requested n r) t = (if t.id == n then asked_by k r else 0) + asked_in k n r t.children
  asked k (committed n) t = 0
  asked k (sync_set n b) t = 0
  asked k (frame_drawn n) t = 0

  callbacks-frame : (k : ℕ) (s : Surface R) → callbacks k (handle_frame s) ≡ callbacks k s
  unfolding handle_frame
  callbacks-frame k s = ground arith

module _ {R : Type 0} (regions : Regions R) where
  callbacks-apply : (k : ℕ) (s : Surface R) → callbacks k (apply_own regions s) ≡ callbacks k s
  unfolding apply_own apply_state apply_attach apply_frame apply_view apply_calls apply_regions
  callbacks-apply k s = ground (arith, count-++ k s.pending.frame_callbacks s.state.frame_callbacks)

  callbacks-request :
      (k : ℕ) (r : Request R) (s : Surface R)
      → callbacks k (request_own regions r s) ≡ callbacks k s + asked_by k r
  unfolding request_own
  callbacks-request k (attach b) s = omega arith
  callbacks-request k (damage rect) s = omega arith
  callbacks-request k (frame c) s = ground (arith, count-++ k s.pending.frame_callbacks (c ∷ []))
  callbacks-request k (set_opaque_region none) s = omega arith
  callbacks-request k (set_opaque_region (some r)) s = omega arith
  callbacks-request k (set_input_region none) s = omega arith
  callbacks-request k (set_input_region (some r)) s = omega arith

  callbacks-flush :
      (k : ℕ) (b : Bool) (f : Forest R)
      → callbacks_in k (flush_children regions b f) ≡ callbacks_in k f
  unfolding flush_children
  callbacks-flush k b no_more = refl
  callbacks-flush k b (subsurface i sync pending s below others) =
      ground (arith, callbacks-apply k s, callbacks-flush k true below, callbacks-flush k b others)

  callbacks-commit_in :
      (k n : ℕ) (b : Bool) (f : Forest R)
      → callbacks_in k (commit_in regions n b f) ≡ callbacks_in k f
  unfolding commit_in
  callbacks-commit_in k n b no_more = refl
  callbacks-commit_in k n b (subsurface i sync pending s below others) = ground (
    arith,
    callbacks-apply k s,
    callbacks-commit_in k n (sync || b) below,
    callbacks-flush k false below,
    callbacks-commit_in k n b others,
  )

  callbacks-set_sync_in :
      (k n : ℕ) (c b : Bool) (f : Forest R)
      → callbacks_in k (set_sync_in regions n c b f) ≡ callbacks_in k f
  unfolding set_sync_in
  callbacks-set_sync_in k n c b no_more = refl
  callbacks-set_sync_in k n c b (subsurface i sync pending s below others) = ground (
    arith,
    callbacks-apply k s,
    callbacks-set_sync_in k n c (sync || b) below,
    callbacks-flush k false below,
    callbacks-set_sync_in k n c b others,
  )

  callbacks-drawn :
      (k n : ℕ) (f : Forest R) → callbacks_in k (on_forest n handle_frame f) ≡ callbacks_in k f
  unfolding on_forest
  callbacks-drawn k n no_more = refl
  callbacks-drawn k n (subsurface i sync pending s below others) =
      ground (arith, callbacks-frame k s, callbacks-drawn k n below, callbacks-drawn k n others)

  callbacks-requested :
      (k n : ℕ) (r : Request R) (f : Forest R)
      → callbacks_in k (on_forest n (request_own regions r) f) ≡ callbacks_in k f + asked_in k n r f
  unfolding on_forest
  callbacks-requested k n r no_more = ground arith
  callbacks-requested k n r (subsurface i sync pending s below others) = ground (
    arith,
    callbacks-request k r s,
    callbacks-requested k n r below,
    callbacks-requested k n r others,
  )

  callbacks-handle :
      (k : ℕ) (e : Event R) (t : Tree R)
      → callbacks_of k (handle regions e t) ≡ callbacks_of k t + asked k e t
  unfolding handle commit set_sync on_tree
  callbacks-handle k (requested n r) t =
      ground (arith, callbacks-request k r t.surface, callbacks-requested k n r t.children)
  callbacks-handle k (committed n) t = ground (
    arith,
    callbacks-apply k t.surface,
    callbacks-flush k false t.children,
    callbacks-commit_in k n false t.children,
  )
  callbacks-handle k (sync_set n b) t = ground (arith, callbacks-set_sync_in k n b false t.children)
  callbacks-handle k (frame_drawn n) t =
      ground (arith, callbacks-frame k t.surface, callbacks-drawn k n t.children)

  abbrev pub asked_all : ℕ → List (Event R) → Tree R → ℕ
  asked_all k [] t = 0
  asked_all k (e ∷ es) t = asked k e t + asked_all k es (handle regions e t)

  -- Whatever happens to a tree of surfaces, in whatever order, no frame callback is lost, and none is
  -- answered or kept twice: what surfaces have requested, committed or had answered holds each
  -- callback as often as at the start and as often as it was asked for since.
  pub callbacks-run :
      (k : ℕ) (es : List (Event R)) (t : Tree R)
      → callbacks_of k (run regions es t) ≡ callbacks_of k t + asked_all k es t
  callbacks-run k [] t = omega arith
  callbacks-run k (e ∷ es) t =
      omega (arith, callbacks-run k es (handle regions e t), callbacks-handle k e t)
