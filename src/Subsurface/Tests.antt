-- ===== src/Subsurface/Tests.antt =====
-- A window with three subsurfaces, and the theorems at it.
use neoswc.Prelude.{
  Option, none, some, ◌≢◌, ℕ, ◌≡◌, refl, true, false, List, [], ◌∷◌, ◌++◌, ◌*◌, ◌==◌, arith,
  if◌then◌else◌,
}
use neoswc.Prelude.Int.{pos}
use neoswc.Stacking.{View}
use neoswc.Subsurface.{
  Subsurface, Parent, placed, bad_surface, listed, unlink, link_beside, place_above, place_below,
}
use neoswc.Subsurface.Commit.{subsurface_parent_commit}
use neoswc.Subsurface.Siblings.{stack, distinct, placeable, place-stack}
use neoswc.Subsurface.Segments.{unlink_all}
use neoswc.Subsurface.Sides.{all_listed, open_at}
use neoswc.Subsurface.Ordered.{ids, subsurface_parent_commit-ordered}
use neoswc.Subsurface.Roles.{
  Role, Roles, created, bad_parent, with_role, is_descendant_of, subsurface_is_synchronized,
  get_subsurface, set_sync,
}
use neoswc.Subsurface.Roles.Ends.{answered, Reachable, start, got, sync_set, reachable-loops_end}
use mathlib.Core.List.{reverse}

abbrev child : ℕ → Subsurface
child i = record {
  surface = i;
  x = pos 0;
  y = pos 0;
  pending_x = pos (10 * i);
  pending_y = pos 5;
  pending_position = true;
  sync = true;
  pending = false;
  added = false;
  has_buffer = true;
}

-- The window is 1; 2 is below it, 3 and 4 are above.
abbrev window : Parent
window = record {
  surface = 1;
  view = record { x = pos 100; y = pos 50; buffer_offset_x = pos 0; buffer_offset_y = pos 0 };
  subsurfaces = child 4 ∷ child 3 ∷ child 2 ∷ [];
  pending_below = 2 ∷ [];
  pending_above = 3 ∷ 4 ∷ [];
  below = [];
  above = [];
}

abbrev view : ℕ → View
view i = record { id = i; stack_layer = 2; visible = true; always_top = false; has_window = i == 1 }

abbrev views : List View
views = view 2 ∷ view 9 ∷ view 4 ∷ view 3 ∷ view 1 ∷ view 7 ∷ []

window_distinct : distinct (stack window) ≡ true
unfolding listed
window_distinct = refl

views_distinct : distinct (ids views) ≡ true
unfolding listed
views_distinct = refl

views_complete : all_listed (stack window) (ids views) ≡ true
unfolding listed
views_complete = refl

place-stack_example :
    let (up, answer) = place_above window 4 2 in
    let (down, answer') = place_below window 4 2 in
    let rest = unlink 4 (stack window) in
    (answer ≡ (if placeable window 4 2 then placed else bad_surface))
    × (answer' ≡ answer)
    × (stack up ≡ (if placeable window 4 2 then link_beside true 2 4 rest else stack window))
    × (stack down ≡ (if placeable window 4 2 then link_beside false 2 4 rest else stack window))
place-stack_example = place-stack window 4 2 (λ e. ground (arith, e)) window_distinct

subsurface_parent_commit-ordered_example :
    let (p', views', _) = subsurface_parent_commit window views [] in
    let others =
      unlink_all window.pending_above (unlink_all (reverse window.pending_below) (ids views)) in
    (ids views' ≡ open_at 1 (reverse (stack window)) others)
    × (p'.below ++ p'.surface ∷ p'.above ≡ stack window)
subsurface_parent_commit-ordered_example =
    subsurface_parent_commit-ordered window views [] window_distinct views_distinct views_complete

abbrev under : ℕ → Option Role
under p = some (record { parent = some p; sync = true; pending = false })

abbrev second : Roles
second = with_role (λ _. none) 2 (under 1)

abbrev third : Roles
third = with_role second 3 (under 2)

-- 2 is put on 1, 3 on 2, and 1 on 3, which is refused; then 3 is made independent.
requested : Reachable (set_sync third 3 false)
unfolding get_subsurface is_descendant_of
requested =
    sync_set
      (got {roles = third} {roles' = third}
        (got {roles = second} {roles' = third}
          (got {roles = λ _. none} {roles' = second} start 3 2 1 true created refl) 3 3 2 true
          created refl)
        3 1 3 true bad_parent refl)
      3 false

reachable-loops_end_example :
    ((k : ℕ) × (answered (subsurface_is_synchronized k (set_sync third 3 false) 3) ≡ true)
      × (answered (is_descendant_of k (set_sync third 3 false) 1 3) ≡ true))
    × ((k : ℕ) → is_descendant_of k (set_sync third 3 false) 3 3 ≢ some true)
reachable-loops_end_example = reachable-loops_end requested 1 3
