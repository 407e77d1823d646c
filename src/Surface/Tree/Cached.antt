-- ===== src/Surface/Tree/Cached.antt =====
-- libswc/surface.c: proofs about the commits of synchronised subsurfaces.
use neoswc.Prelude.{
  ℕ, ◌≡◌, refl, ap, sym, subst, ◌∙◌, Bool, true, false, not, ◌&&◌, ◌||◌, none, some, List, [], ◌∷◌,
  ◌++◌, ◌==◌, arith,
}
use neoswc.Surface.{
  Regions, State, Surface, Request, apply_own, request_own, attach, damage, frame,
  set_opaque_region, set_input_region,
}
use neoswc.Surface.Tree.{
  Forest, no_more, subsurface, Tree, Event, on_forest, on_tree, flush_children, commit_in, commit,
  set_sync_in, set_sync, requested, committed, sync_set, frame_drawn, handle, run,
}

module _ {R : Type 0} where
  abbrev pub surfaces_in : Forest R → List (Surface R)
  surfaces_in no_more = []
  surfaces_in (subsurface i sync pending s below others) =
      s ∷ (surfaces_in below ++ surfaces_in others)

  abbrev pub surfaces : Tree R → List (Surface R)
  surfaces t = t.surface ∷ surfaces_in t.children

  -- The committed states
  abbrev pub states_in : Forest R → List (State R)
  states_in no_more = []
  states_in (subsurface i sync pending s below others) =
      s.state ∷ (states_in below ++ states_in others)

  abbrev pub states : Tree R → List (State R)
  states t = t.surface.state ∷ states_in t.children

  -- The subsurfaces of the surface itself are synchronised, and so are all below them.
  abbrev pub synced : Forest R → Bool
  synced no_more = true
  synced (subsurface i sync pending s below others) = sync && synced others

  -- Each subsurface has committed since its state was last applied.
  abbrev pub all_pending : Forest R → Bool
  all_pending no_more = true
  all_pending (subsurface i sync pending s below others) =
      pending && (all_pending below && all_pending others)

  -- Requests, commits of other surfaces than this one, and requests to be synchronised
  abbrev pub before_commit : ℕ → Event R → Bool
  before_commit i (requested n r) = true
  before_commit i (committed n) = not (i == n)
  before_commit i (sync_set n b) = b
  before_commit i (frame_drawn n) = false

  abbrev pub all_before_commit : ℕ → List (Event R) → Bool
  all_before_commit i [] = true
  all_before_commit i (e ∷ es) = before_commit i e && all_before_commit i es

  abbrev pub each : (Surface R → Surface R) → List (Surface R) → List (Surface R)
  each f [] = []
  each f (s ∷ ss) = f s ∷ each f ss

  each-++ :
      (f : Surface R → Surface R) (xs ys : List (Surface R))
      → each f (xs ++ ys) ≡ each f xs ++ each f ys
  each-++ f [] ys = refl
  each-++ f (x ∷ xs) ys = ap {B = List (Surface R)} (λ zs. f x ∷ zs) (each-++ f xs ys)

module _ {R : Type 0} (regions : Regions R) where
  state-request : (r : Request R) (s : Surface R) → (request_own regions r s).state ≡ s.state
  unfolding request_own
  state-request (attach b) s = refl
  state-request (damage rect) s = refl
  state-request (frame c) s = refl
  state-request (set_opaque_region none) s = refl
  state-request (set_opaque_region (some r)) s = refl
  state-request (set_input_region none) s = refl
  state-request (set_input_region (some r)) s = refl

  states-request :
      (r : Request R) (n : ℕ) (f : Forest R)
      → (states_in (on_forest n (request_own regions r) f) ≡ states_in f)
        × (synced (on_forest n (request_own regions r) f) ≡ synced f)
  unfolding on_forest
  states-request r n no_more = (refl, refl)
  states-request r n (subsurface i sync pending s below others) =
      ground (arith, state-request r s, states-request r n below, states-request r n others)

  -- A commit below a synchronised subsurface is only noted.
  states-commit_below :
      (n : ℕ) (f : Forest R) → states_in (commit_in regions n true f) ≡ states_in f
  unfolding commit_in
  states-commit_below n no_more = refl
  states-commit_below n (subsurface i sync pending s below others) =
      ground (arith, states-commit_below n below, states-commit_below n others)

  states-commit_in :
      (n : ℕ) (f : Forest R)
      → synced f ≡ true
      → (states_in (commit_in regions n false f) ≡ states_in f)
        × (synced (commit_in regions n false f) ≡ true)
  unfolding commit_in
  states-commit_in n no_more h = (refl, refl)
  states-commit_in n (subsurface i sync pending s below others) h =
      ground (arith, h, states-commit_below n below, states-commit_in n others)

  states-set_sync :
      (n : ℕ) (b : Bool) (f : Forest R) → states_in (set_sync_in regions n true b f) ≡ states_in f
  unfolding set_sync_in
  states-set_sync n b no_more = refl
  states-set_sync n b (subsurface i sync pending s below others) =
      ground (arith, states-set_sync n (sync || b) below, states-set_sync n b others)

  synced-set_sync :
      (n : ℕ) (b : Bool) (f : Forest R)
      → synced f ≡ true
      → synced (set_sync_in regions n true b f) ≡ true
  unfolding set_sync_in
  synced-set_sync n b no_more h = refl
  synced-set_sync n b (subsurface i sync pending s below others) h =
      ground (arith, h, synced-set_sync n b others)

  states-handle :
      (e : Event R) (t : Tree R)
      → before_commit t.id e ≡ true
      → synced t.children ≡ true
      → (states (handle regions e t) ≡ states t)
        × (synced (handle regions e t).children ≡ true)
        × ((handle regions e t).id ≡ t.id)
  unfolding handle commit set_sync on_tree
  states-handle (requested n r) t b h =
      ground (arith, h, state-request r t.surface, states-request r n t.children)
  states-handle (committed n) t b h = ground (arith, b, h, states-commit_in n t.children)
  states-handle (sync_set n c) t b h =
      ground (arith, b, h, states-set_sync n false t.children, synced-set_sync n false t.children)
  states-handle (frame_drawn n) t b h = ground (arith, b)

  states-run :
      (es : List (Event R)) (t : Tree R)
      → all_before_commit t.id es ≡ true
      → synced t.children ≡ true
      → (states (run regions es t) ≡ states t)
        × (synced (run regions es t).children ≡ true)
        × ((run regions es t).id ≡ t.id)
  states-run [] t b h = (refl, h, refl)
  states-run (e ∷ es) t b h =
      let (s1, k1, i1) = states-handle e t (ground (arith, b)) h in
      let (s2, k2, i2) =
        states-run es (handle regions e t)
          (subst (λ (i : ℕ). all_before_commit i es ≡ true) (sym i1) (ground (arith, b))) k1 in
      (s2 ∙ s1, k2, i2 ∙ i1)

  -- The commit of a surface reaches all synchronised subsurfaces that have committed.
  surfaces-flush :
      (b : Bool) (f : Forest R)
      → synced f || b ≡ true
      → all_pending f ≡ true
      → surfaces_in (flush_children regions b f) ≡ each (apply_own regions) (surfaces_in f)
  unfolding flush_children
  surfaces-flush b no_more h p = refl
  surfaces-flush b (subsurface i sync pending s below others) h p = ground (
    arith,
    h,
    p,
    surfaces-flush true below,
    surfaces-flush b others,
    each-++ (apply_own regions) (surfaces_in below) (surfaces_in others),
  )

  -- A surface's subsurfaces are synchronised. Whatever is requested of any surface of the tree, however
  -- the subsurfaces commit, and whichever are made synchronised: no surface's committed state changes
  -- until the surface itself commits. If each subsurface has a commit pending then, that one commit
  -- applies what was requested of every surface of the tree.
  pub run-commit :
      (es : List (Event R)) (t : Tree R)
      → all_before_commit t.id es ≡ true
      → synced t.children ≡ true
      → all_pending (run regions es t).children ≡ true
      → let t' = run regions es t in
        (states t' ≡ states t)
        × (surfaces (commit regions t.id t') ≡ each (apply_own regions) (surfaces t'))
  unfolding commit
  run-commit es t b h p =
      let (same, k, i) = states-run es t b h in
      let t' = run regions es t in
      let below : surfaces_in (flush_children regions false t'.children)
          ≡ each (apply_own regions) (surfaces_in t'.children) =
        surfaces-flush false t'.children (ground (arith, k)) p in
      (same, ground (arith, i, below))
