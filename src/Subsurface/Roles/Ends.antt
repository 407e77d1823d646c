-- ===== src/Subsurface/Roles/Ends.antt =====
-- libswc/subcompositor.c: proofs that the loops over the parents end.
use neoswc.Prelude.{
  ℕ, zero, suc, ◌≡◌, ◌≢◌, refl, sym, ap, ◌∙◌, Bool, true, false, Option, none, some, arith,
}
use neoswc.Subsurface.Roles.{
  Answer, Roles, is_descendant_of, subsurface_is_synchronized, get_subsurface, subsurface_destroy,
  handle_parent_destroy, set_sync,
}
use neoswc.Subsurface.Roles.Climbs.{
  climbs, more, result-climbs, climbs-suc, climbs-destroyed, climbs-orphaned, climbs-sync,
  climbs-get_subsurface,
}

abbrev pub answered : Option Bool → Bool
answered none = false
answered (some b) = true

synchronized-answered :
    (k : ℕ) (roles : Roles) (n : ℕ)
    → climbs k roles n ≡ true
    → answered (subsurface_is_synchronized k roles n) ≡ true
unfolding subsurface_is_synchronized
synchronized-answered zero roles n h = h
synchronized-answered (suc k) roles n h = grind (arith, h, synchronized-answered k roles)

descendant-answered :
    (k : ℕ) (roles : Roles) (s n : ℕ)
    → climbs k roles n ≡ true
    → answered (is_descendant_of k roles s n) ≡ true
unfolding is_descendant_of
descendant-answered zero roles s n h = h
descendant-answered (suc k) roles s n h = grind (arith, h, descendant-answered k roles s)

-- An ancestor is nearer to the end of the climb.
climbs-ancestor :
    (k j : ℕ) (roles : Roles) (a n : ℕ)
    → is_descendant_of k roles a n ≡ some true
    → climbs (suc j) roles n ≡ true
    → climbs j roles a ≡ true
unfolding is_descendant_of
climbs-ancestor zero j roles a n e h = grind (arith, e)
climbs-ancestor (suc k) zero roles a n e h = grind (arith, e, h)
climbs-ancestor (suc k) (suc j) roles a n e h =
    grind (arith, e, h, climbs-ancestor k j roles a, climbs-suc j roles a)

no_cycle :
    (k j : ℕ) (roles : Roles) (n : ℕ)
    → climbs j roles n ≡ true
    → is_descendant_of k roles n n ≢ some true
no_cycle k zero roles n h e = ground (arith, h)
no_cycle k (suc j) roles n h e = no_cycle k j roles n (climbs-ancestor k j roles n n e h) e

-- The roles that requests and destructions lead to from none
pub data Reachable : Roles → Type 0 where
  start : Reachable (λ _. none)
  got :
      {roles roles' : Roles}
      → Reachable roles
      → (fuel n p : ℕ) (allocated : Bool) (answer : Answer)
      → get_subsurface fuel roles n p allocated ≡ some (roles', answer)
      → Reachable roles'
  destroyed : {roles : Roles} → Reachable roles → (n : ℕ) → Reachable (subsurface_destroy roles n)
  parent_destroyed :
      {roles : Roles} → Reachable roles → (n : ℕ) → Reachable (handle_parent_destroy roles n)
  sync_set : {roles : Roles} → Reachable roles → (n : ℕ) (b : Bool) → Reachable (set_sync roles n b)

reachable-climbs : {roles : Roles} → Reachable roles → (n : ℕ) → (k : ℕ) × (climbs k roles n ≡ true)
reachable-climbs start n = (1, refl)
reachable-climbs {roles} (got {roles = before} r fuel s p allocated answer e) n =
    let (k, h) = reachable-climbs r n in
    (
      more k (suc fuel),
      sym (ap (result-climbs (more k (suc fuel)) n) e)
          ∙ climbs-get_subsurface fuel before s p allocated k n h,
    )
reachable-climbs (destroyed {roles = before} r s) n =
    let (k, h) = reachable-climbs r n in (k, climbs-destroyed k before s n h)
reachable-climbs (parent_destroyed {roles = before} r s) n =
    let (k, h) = reachable-climbs r n in (k, climbs-orphaned k before s n h)
reachable-climbs (sync_set {roles = before} r s b) n =
    let (k, h) = reachable-climbs r n in (k, climbs-sync k before s b n h)

-- Whatever subsurfaces are requested, made synchronised or not, and destroyed, in whatever order, and
-- whatever parents go: the loops that look from a surface for an ancestor and for a synchronised
-- subsurface come to an end, and no surface ever is its own descendant.
pub reachable-loops_end :
    {roles : Roles}
    → Reachable roles
    → (s n : ℕ)
    → ((k : ℕ) × (answered (subsurface_is_synchronized k roles n) ≡ true)
        × (answered (is_descendant_of k roles s n) ≡ true))
      × ((k : ℕ) → is_descendant_of k roles n n ≢ some true)
reachable-loops_end {roles} r s n =
    let (k, h) = reachable-climbs r n in
    (
      (k, synchronized-answered k roles n h, descendant-answered k roles s n h),
      λ j. no_cycle j k roles n h,
    )
