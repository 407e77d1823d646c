-- ===== src/Subsurface/Roles/Climbs.antt =====
-- libswc/subcompositor.c: proofs about the loops that climb to the parents.
use neoswc.Prelude.{ℕ, zero, suc, ◌≡◌, ◌≢◌, refl, Bool, true, false, Option, none, some, arith}
use neoswc.Subsurface.Roles.{
  Answer, Role, Roles, parent_in, with_role, is_descendant_of, get_subsurface, subsurface_destroy,
  handle_parent_destroy, set_sync,
}

-- Whether the parents of a surface come to an end within the fuel
abbrev pub climbs : ℕ → Roles → ℕ → Bool
climbs zero roles n = false
climbs (suc fuel) roles n = elim (parent_in (roles n)) [
  | none ↦ true
  | some p ↦ climbs fuel roles p
]

pub climbs-suc :
    (k : ℕ) (roles : Roles) (n : ℕ) → climbs k roles n ≡ true → climbs (suc k) roles n ≡ true
climbs-suc zero roles n h = ground (arith, h)
climbs-suc (suc k) roles n h = grind (arith, h, climbs-suc k roles)

-- A sum that computes by its first number
abbrev pub more : ℕ → ℕ → ℕ
more zero j = j
more (suc i) j = suc (more i j)

climbs-more :
    (i j : ℕ) (roles : Roles) (n : ℕ) → climbs j roles n ≡ true → climbs (more i j) roles n ≡ true
climbs-more zero j roles n h = h
climbs-more (suc i) j roles n h = climbs-suc (more i j) roles n (climbs-more i j roles n h)

-- A climb that does not come across a surface is the same whatever role that gets.
climbs_past :
    (k : ℕ) (roles : Roles) (s : ℕ) (r : Option Role) (n : ℕ)
    → is_descendant_of k roles s n ≡ some false
    → n ≢ s
    → climbs k (with_role roles s r) n ≡ true
unfolding is_descendant_of
climbs_past zero roles s r n h d = grind (arith, h)
climbs_past (suc k) roles s r n h d = grind (arith, h, d, climbs_past k roles s r)

-- A climb that comes to the surface goes on to its new parent.
climbs_joined :
    (k j : ℕ) (roles : Roles) (s : ℕ) (r : Role) (p n : ℕ)
    → r.parent ≡ some p
    → climbs j (with_role roles s (some r)) p ≡ true
    → climbs k roles n ≡ true
    → climbs (more k (suc j)) (with_role roles s (some r)) n ≡ true
climbs_joined zero j roles s r p n e hp h = grind (arith, h)
climbs_joined (suc k) j roles s r p n e hp h = grind (
  arith,
  h,
  e,
  hp,
  climbs_joined k j roles s r p,
  climbs-more k (suc j) (with_role roles s (some r)) p,
  climbs-suc j (with_role roles s (some r)) p,
)

-- A surface that loses its role, and one that loses its children, cut climbs short.
pub climbs-destroyed :
    (k : ℕ) (roles : Roles) (s n : ℕ)
    → climbs k roles n ≡ true
    → climbs k (subsurface_destroy roles s) n ≡ true
unfolding subsurface_destroy
climbs-destroyed zero roles s n h = h
climbs-destroyed (suc k) roles s n h = grind (arith, h, climbs-destroyed k roles s)

pub climbs-orphaned :
    (k : ℕ) (roles : Roles) (s n : ℕ)
    → climbs k roles n ≡ true
    → climbs k (handle_parent_destroy roles s) n ≡ true
unfolding handle_parent_destroy
climbs-orphaned zero roles s n h = h
climbs-orphaned (suc k) roles s n h = grind (arith, h, climbs-orphaned k roles s)

pub climbs-sync :
    (k : ℕ) (roles : Roles) (s : ℕ) (b : Bool) (n : ℕ)
    → climbs k roles n ≡ true
    → climbs k (set_sync roles s b) n ≡ true
unfolding set_sync
climbs-sync zero roles s b n h = h
climbs-sync (suc k) roles s b n h = grind (arith, h, climbs-sync k roles s b)

climbs-less :
    (k j : ℕ) (roles : Roles) (n : ℕ) → climbs k roles n ≡ true → climbs (more k j) roles n ≡ true
climbs-less zero j roles n h = grind (arith, h)
climbs-less (suc k) j roles n h = grind (arith, h, climbs-less k j roles)

abbrev pub result-climbs : ℕ → ℕ → Option (Roles × Answer) → Bool
result-climbs k n none = true
result-climbs k n (some x) = climbs k x.0 n

-- The climb from any surface after a request, by the climb before it
pub climbs-get_subsurface :
    (fuel : ℕ) (roles : Roles) (s p : ℕ) (allocated : Bool) (k n : ℕ)
    → climbs k roles n ≡ true
    → result-climbs (more k (suc fuel)) n (get_subsurface fuel roles s p allocated) ≡ true
unfolding get_subsurface
climbs-get_subsurface fuel roles s p allocated k n h =
    let r : Role = record { parent = some p; sync = true; pending = false } in
    grind (
      arith,
      h,
      climbs-less k (suc fuel) roles n,
      climbs_past fuel roles s (some r) p,
      climbs_joined k fuel roles s r p n refl,
    )
