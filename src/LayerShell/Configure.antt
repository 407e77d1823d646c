-- ===== src/LayerShell/Configure.antt =====
-- libswc/layer_shell.c: proofs about commits and sizes.
use neoswc.Prelude.{◌≡◌, ◌∙◌, true, arith, suc, ◌%◌, ◌&&◌, List, ◌∷◌, if◌then◌else◌}
use neoswc.Prelude.Int.{ℤ, pos, negsuc, eqb_ℤ}
use neoswc.LayerShell.{
  LayerState, LayerSurface, state_equal, configure_size, Call, configure_sent, stack_layer_set,
  usable_geometry_updated, anchor_top, anchor_bottom, anchor_left, anchor_right,
}
use neoswc.LayerShell.Requests.{handle_surface_commit, send_configure, restack_layer, stack_layer}

pub eqb_ℤ-eq : (a b : ℤ) → eqb_ℤ a b ≡ true → a ≡ b
eqb_ℤ-eq (pos a) (pos b) h = ground (arith, h)
eqb_ℤ-eq (negsuc a) (negsuc b) h = ground (arith, h)
eqb_ℤ-eq (pos a) (negsuc b) h = ground (arith, h)
eqb_ℤ-eq (negsuc a) (pos b) h = ground (arith, h)

eqb_ℤ_self : (a : ℤ) → eqb_ℤ a a ≡ true
eqb_ℤ_self (pos a) = ground arith
eqb_ℤ_self (negsuc a) = ground arith

state_equal-eq : (a b : LayerState) → state_equal a b ≡ true → a ≡ b
unfolding state_equal
state_equal-eq a b h = ground (
  arith,
  h,
  eqb_ℤ-eq a.exclusive_zone b.exclusive_zone,
  eqb_ℤ-eq a.margin.top b.margin.top,
  eqb_ℤ-eq a.margin.right b.margin.right,
  eqb_ℤ-eq a.margin.bottom b.margin.bottom,
  eqb_ℤ-eq a.margin.left b.margin.left,
)

state_equal_self : (a : LayerState) → state_equal a a ≡ true
unfolding state_equal
state_equal_self a = ground (
  arith,
  eqb_ℤ_self a.exclusive_zone,
  eqb_ℤ_self a.margin.top,
  eqb_ℤ_self a.margin.right,
  eqb_ℤ_self a.margin.bottom,
  eqb_ℤ_self a.margin.left,
)

abbrev Settled : LayerSurface → Type 0
Settled s = (s.current ≡ s.pending) × (s.configured ≡ true)

commit_again : (s : LayerSurface) → Settled s → handle_surface_commit s ≡ s
unfolding handle_surface_commit
commit_again s (same, done) = ground (arith, done, same, state_equal_self s.pending)

commit-Settled : (s : LayerSurface) → Settled (handle_surface_commit s)
unfolding handle_surface_commit send_configure restack_layer
commit-Settled s = ground (arith, state_equal-eq s.current s.pending)

-- What a commit sends and asks for, newest first: nothing without a change behind the first one; else
-- a configure, with the sizes that the new state gives, behind what a change asks for.
abbrev pub commit_calls : LayerSurface → List Call
commit_calls s =
    let p = s.pending in
    let settled = state_equal s.current p in
    let serial = suc s.last_serial % 4294967296 in
    let width =
      configure_size p.desired_width p.anchor anchor_left anchor_right s.screen.width p.margin.left
        p.margin.right in
    let height =
      configure_size p.desired_height p.anchor anchor_top anchor_bottom s.screen.height p.margin.top
        p.margin.bottom in
    if settled && s.configured
    then s.calls
    else configure_sent serial width height
      ∷ (if settled
          then s.calls
          else usable_geometry_updated ∷ stack_layer_set (stack_layer p.layer) ∷ s.calls)

commit-calls : (s : LayerSurface) → (handle_surface_commit s).calls ≡ commit_calls s
unfolding handle_surface_commit send_configure restack_layer
commit-calls s = ground (arith, state_equal-eq s.current s.pending)

commit-serial :
    (s : LayerSurface)
    → (handle_surface_commit s).configure_serial ≡ (
        if state_equal s.current s.pending && s.configured
        then s.configure_serial
        else suc s.last_serial % 4294967296)
unfolding handle_surface_commit send_configure restack_layer
commit-serial s = ground arith

-- A commit applies all that the client's requests have left pending, whatever it is. The first commit
-- and each that changes something send one configure, with the next serial, which is the one to
-- acknowledge, and the sizes that the new state gives; a change first puts the view into its layer
-- and has the usable area computed anew. Any other commit sends and asks nothing; so a commit with no
-- request before it changes nothing.
pub handle_surface_commit-once :
    (s : LayerSurface)
    → let s' = handle_surface_commit s in
      (s'.current ≡ s.pending)
      × (s'.configured ≡ true)
      × (s'.calls ≡ commit_calls s)
      × (s'.configure_serial ≡ (
          if state_equal s.current s.pending && s.configured
          then s.configure_serial
          else suc s.last_serial % 4294967296))
      × (handle_surface_commit s' ≡ s')
unfolding handle_surface_commit send_configure restack_layer
handle_surface_commit-once s =
    let settled = commit-Settled s in
    let kept : (handle_surface_commit s).pending ≡ s.pending = ground arith in
    (
      settled.0 ∙ kept,
      settled.1,
      commit-calls s,
      commit-serial s,
      commit_again (handle_surface_commit s) settled,
    )
