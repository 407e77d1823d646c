-- ===== src/Surface/Tree/Held.antt =====
-- libswc/surface.c: proofs about surfaces whose rendering is held.
use neoswc.Prelude.{
  ℕ, ◌≡◌, refl, ap, not, Option, ◌∙◌, Bool-cases, inl, inr, Bool, true, false, ◌&&◌, ◌||◌, none,
  some, arith,
}
use neoswc.Surface.{
  no_flags, Regions, Surface, Request, apply_attach, apply_frame, apply_view, apply_calls,
  apply_regions, apply_own, apply_state, request_own, handle_frame, release_own, attach, damage,
  frame, set_opaque_region, set_input_region,
}
use neoswc.Surface.Tree.{
  Forest, no_more, subsurface, Tree, release_forest, surface_release_render, on_forest, on_tree,
  flush_children, commit_in, set_sync_in,
}

module _ {R : Type 0} (regions : Regions R) where
  abbrev end_commit : Surface R → Surface R
  end_commit s = record s { commit = no_flags }

  abbrev AttachKept : Surface R → Type 0
  AttachKept s =
      end_commit (apply_view (apply_frame (apply_regions regions (release_own (apply_attach s)))))
      ≡ end_commit (apply_view (apply_frame (apply_regions regions (apply_attach (release_own s)))))

  release-apply_view :
      (s : Surface R)
      → s.render_hold.held ≡ true
      → release_own (end_commit (apply_view s)) ≡ end_commit (apply_view (release_own s))
  unfolding release_own apply_view
  release-apply_view s h = ground (arith, h)

  release-apply_frame : (s : Surface R) → release_own (apply_frame s) ≡ apply_frame (release_own s)
  unfolding release_own apply_frame
  release-apply_frame s = ground arith

  release-apply_regions :
      (s : Surface R)
      → release_own (apply_regions regions s) ≡ apply_regions regions (release_own s)
  unfolding release_own apply_regions
  release-apply_regions s = ground arith

  held-before_view :
      (s : Surface R)
      → (apply_frame (apply_regions regions (apply_attach s))).render_hold.held ≡ s.render_hold.held
  unfolding apply_attach apply_frame apply_regions
  held-before_view s = ground arith

  abbrev with_shown : Option ℕ → Surface R → Surface R
  with_shown x s = record s { shown = x }

  -- An attach of a surface with a view that is not held leaves nothing of what it showed before.
  attach_over :
      (x : Option ℕ) (s : Surface R)
      → s.commit.attached ≡ true
      → s.render_hold.held ≡ false
      → s.has_view ≡ true
      → end_commit (apply_view (with_shown x s)) ≡ end_commit (apply_view s)
  unfolding apply_view
  attach_over x s a h v = ground (arith, a, h, v)

  apply_frame-with_shown :
      (x : Option ℕ) (s : Surface R) → apply_frame (with_shown x s) ≡ with_shown x (apply_frame s)
  unfolding apply_frame
  apply_frame-with_shown x s = ground arith

  apply_regions-with_shown :
      (x : Option ℕ) (s : Surface R)
      → apply_regions regions (with_shown x s) ≡ with_shown x (apply_regions regions s)
  unfolding apply_regions
  apply_regions-with_shown x s = ground arith

  release-apply_attach :
      (s : Surface R)
      → release_own (apply_attach s)
        ≡ with_shown (release_own (apply_attach s)).shown (apply_attach (release_own s))
  unfolding release_own apply_attach
  release-apply_attach s = ground arith

  release-apply_AttachKept :
      (s : Surface R)
      → not (s.commit.attached && s.has_view) ≡ true
      → release_own (apply_attach s) ≡ apply_attach (release_own s)
  unfolding release_own apply_attach
  release-apply_AttachKept s h = ground (arith, h)

  before_view :
      (s : Surface R)
      → let u = apply_frame (apply_regions regions (apply_attach (release_own s))) in
        (u.commit.attached ≡ s.commit.attached)
        × (u.render_hold.held ≡ false)
        × (u.has_view ≡ s.has_view)
  unfolding apply_attach apply_frame apply_regions release_own
  before_view s = ground arith

  attach-release : (s : Surface R) → AttachKept s
  attach-release s = elim (Bool-cases (s.commit.attached && s.has_view)) [
    | inl both ↦
        let x = (release_own (apply_attach s)).shown in
        let u = apply_attach (release_own s) in
        let seen = before_view s in
        ap (λ t. end_commit (apply_view (apply_frame (apply_regions regions t))))
          (release-apply_attach s)
        ∙ ap (λ t. end_commit (apply_view (apply_frame t))) (apply_regions-with_shown x u)
        ∙ ap (λ t. end_commit (apply_view t)) (apply_frame-with_shown x (apply_regions regions u))
        ∙ attach_over x (apply_frame (apply_regions regions u)) (ground (arith, seen.0, both))
            seen.1 (ground (arith, seen.2, both))
    | inr one ↦
        ap (λ t. end_commit (apply_view (apply_frame (apply_regions regions t))))
          (release-apply_AttachKept s (ground (arith, one)))
  ]

  -- What a held surface does before its release it does as well after.
  release-apply_state :
      (s : Surface R)
      → s.render_hold.held ≡ true
      → release_own (apply_state regions s) ≡ apply_state regions (release_own s)
  unfolding apply_state
  release-apply_state s h =
      let a = apply_attach s in
      let r = apply_regions regions a in
      release-apply_view (apply_frame r) (held-before_view s ∙ h)
      ∙ ap (λ t. end_commit (apply_view t)) (release-apply_frame r)
      ∙ ap (λ t. end_commit (apply_view (apply_frame t))) (release-apply_regions a)
      ∙ attach-release s

  release-apply_calls : (s : Surface R) → release_own (apply_calls s) ≡ apply_calls (release_own s)
  unfolding release_own apply_calls
  release-apply_calls s = ground arith

  pub release-apply :
      (s : Surface R)
      → s.render_hold.held ≡ true
      → release_own (apply_own regions s) ≡ apply_own regions (release_own s)
  unfolding apply_own
  release-apply s h =
      release-apply_calls (apply_state regions s) ∙ ap apply_calls (release-apply_state s h)

  pub release-request :
      (r : Request R) (s : Surface R)
      → release_own (request_own regions r s) ≡ request_own regions r (release_own s)
  unfolding release_own request_own
  release-request (attach b) s = ground arith
  release-request (damage rect) s = ground arith
  release-request (frame c) s = ground arith
  release-request (set_opaque_region none) s = ground arith
  release-request (set_opaque_region (some r)) s = ground arith
  release-request (set_input_region none) s = ground arith
  release-request (set_input_region (some r)) s = ground arith

  pub release-frame : (s : Surface R) → release_own (handle_frame s) ≡ handle_frame (release_own s)
  unfolding release_own handle_frame
  release-frame s = ground arith

  pub held-apply : (s : Surface R) → (apply_own regions s).render_hold.held ≡ s.render_hold.held
  unfolding apply_own apply_state apply_attach apply_frame apply_view apply_calls apply_regions
  held-apply s = ground arith

  pub held-request :
      (r : Request R) (s : Surface R)
      → (request_own regions r s).render_hold.held ≡ s.render_hold.held
  unfolding request_own
  held-request (attach b) s = refl
  held-request (damage rect) s = refl
  held-request (frame c) s = refl
  held-request (set_opaque_region none) s = refl
  held-request (set_opaque_region (some r)) s = refl
  held-request (set_input_region none) s = refl
  held-request (set_input_region (some r)) s = refl

module _ {R : Type 0} where
  abbrev pub all_held : Forest R → Bool
  all_held no_more = true
  all_held (subsurface i sync pending s below others) =
      s.render_hold.held && (all_held below && all_held others)

  abbrev pub tree_held : Tree R → Bool
  tree_held t = t.surface.render_hold.held && all_held t.children

module _ {R : Type 0} (regions : Regions R) where
  pub held-flush :
      (b : Bool) (f : Forest R) → all_held f ≡ true → all_held (flush_children regions b f) ≡ true
  unfolding flush_children
  held-flush b no_more h = refl
  held-flush b (subsurface i sync pending s below others) h =
      ground (arith, h, held-apply regions s, held-flush true below, held-flush b others)

  pub release-flush :
      (b : Bool) (f : Forest R)
      → all_held f ≡ true
      → release_forest (flush_children regions b f) ≡ flush_children regions b (release_forest f)
  unfolding flush_children release_forest
  release-flush b no_more h = refl
  release-flush b (subsurface i sync pending s below others) h = ground (
    arith,
    h,
    held-apply regions s,
    release-apply regions s,
    release-flush true below,
    release-flush b others,
  )

  pub release-commit_in :
      (n : ℕ) (b : Bool) (f : Forest R)
      → all_held f ≡ true
      → release_forest (commit_in regions n b f) ≡ commit_in regions n b (release_forest f)
  unfolding commit_in release_forest
  release-commit_in n b no_more h = refl
  release-commit_in n b (subsurface i sync pending s below others) h = ground (
    arith,
    h,
    held-apply regions s,
    release-apply regions s,
    release-commit_in n (sync || b) below,
    release-flush false below,
    release-commit_in n b others,
  )

  pub held-commit_in :
      (n : ℕ) (b : Bool) (f : Forest R)
      → all_held f ≡ true
      → all_held (commit_in regions n b f) ≡ true
  unfolding commit_in
  held-commit_in n b no_more h = refl
  held-commit_in n b (subsurface i sync pending s below others) h = ground (
    arith,
    h,
    held-apply regions s,
    held-commit_in n (sync || b) below,
    held-flush false below,
    held-commit_in n b others,
  )

  pub release-set_sync_in :
      (n : ℕ) (c b : Bool) (f : Forest R)
      → all_held f ≡ true
      → release_forest (set_sync_in regions n c b f) ≡ set_sync_in regions n c b (release_forest f)
  unfolding set_sync_in release_forest
  release-set_sync_in n c b no_more h = refl
  release-set_sync_in n c b (subsurface i sync pending s below others) h = ground (
    arith,
    h,
    held-apply regions s,
    release-apply regions s,
    release-set_sync_in n c (sync || b) below,
    release-flush false below,
    release-set_sync_in n c b others,
  )

  pub held-set_sync_in :
      (n : ℕ) (c b : Bool) (f : Forest R)
      → all_held f ≡ true
      → all_held (set_sync_in regions n c b f) ≡ true
  unfolding set_sync_in
  held-set_sync_in n c b no_more h = refl
  held-set_sync_in n c b (subsurface i sync pending s below others) h = ground (
    arith,
    h,
    held-apply regions s,
    held-set_sync_in n c (sync || b) below,
    held-flush false below,
    held-set_sync_in n c b others,
  )

module _ {R : Type 0} (op : Surface R → Surface R)
    (keeps : (s : Surface R) → (op s).render_hold.held ≡ s.render_hold.held)
    (commutes : (s : Surface R) → release_own (op s) ≡ op (release_own s)) where
  release-on_forest :
      (n : ℕ) (f : Forest R)
      → all_held f ≡ true
      → release_forest (on_forest n op f) ≡ on_forest n op (release_forest f)
  unfolding on_forest release_forest
  release-on_forest n no_more h = refl
  release-on_forest n (subsurface i sync pending s below others) h =
      ground (arith, h, keeps s, commutes s, release-on_forest n below, release-on_forest n others)

  held-on_forest : (n : ℕ) (f : Forest R) → all_held f ≡ true → all_held (on_forest n op f) ≡ true
  unfolding on_forest
  held-on_forest n no_more h = refl
  held-on_forest n (subsurface i sync pending s below others) h =
      ground (arith, h, keeps s, held-on_forest n below, held-on_forest n others)

  pub release-on_tree :
      (n : ℕ) (t : Tree R)
      → tree_held t ≡ true
      → surface_release_render (on_tree n op t) ≡ on_tree n op (surface_release_render t)
  unfolding on_tree surface_release_render
  release-on_tree n t h =
      ground (arith, h, keeps t.surface, commutes t.surface, release-on_forest n t.children)

  pub held-on_tree : (n : ℕ) (t : Tree R) → tree_held t ≡ true → tree_held (on_tree n op t) ≡ true
  unfolding on_tree
  held-on_tree n t h = ground (arith, h, keeps t.surface, held-on_forest n t.children)
