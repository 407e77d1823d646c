-- ===== src/Subsurface/Commit.antt =====
-- libswc/subsurface.c: what the commit of a parent does to its subsurfaces, and their life.
use neoswc.Prelude.{
  ℕ, Bool, true, false, not, ◌&&◌, Option, none, some, List, [], ◌∷◌, ◌++◌, ◌==◌, if◌then◌else◌,
}
use neoswc.Prelude.Int.{ℤ, pos, ◌+ℤ◌, ◌-ℤ◌}
use neoswc.Stacking.{View, remove, restack, create_view}
use neoswc.Subsurface.{Subsurface, Parent, Call, view_move, view_show, view_hide, unlink}
use mathlib.Core.List.{reverse}

-- `compositor_view` of a surface's view, if it has one; all views stand in the list.
unfoldable pub view_of : ℕ → List View → Option View
view_of i [] = none
view_of i (v ∷ vs) = if v.id == i then some v else view_of i vs

-- A loop of `subsurface_parent_commit` over the children on one side: each is put beside the one
-- before it, and one without a view is skipped.
unfoldable pub restack_all : Bool → List ℕ → ℕ → List View → List View
restack_all over [] reference views = views
restack_all over (c ∷ cs) reference views = elim (view_of c views) [
  | none ↦ restack_all over cs reference views
  | some v ↦ restack_all over cs c (restack views v reference over)
]

-- The two loops, if the parent has a view
unfoldable pub restack_children : Parent → List View → List View
restack_children p views = elim (view_of p.surface views) [
  | none ↦ views
  | some _ ↦
      restack_all true p.above p.surface (restack_all false (reverse p.below) p.surface views)
]

abbrev has_view : ℕ → List View → Bool
has_view i views = elim (view_of i views) [ none ↦ false | some _ ↦ true ]

-- `subsurface_update_position`
unfoldable pub subsurface_update_position : Parent → List View → Subsurface → List Call → List Call
subsurface_update_position p views c calls =
    if has_view c.surface views && has_view p.surface views
    then view_move c.surface (p.view.x +ℤ c.x -ℤ p.view.buffer_offset_x)
        (p.view.y +ℤ c.y -ℤ p.view.buffer_offset_y)
      ∷ calls
    else calls

-- The loop over the requested positions
unfoldable pub apply_positions :
    Parent → List View → List Subsurface → List Call → List Subsurface × List Call
apply_positions p views [] calls = ([], calls)
apply_positions p views (c ∷ cs) calls =
    if not c.pending_position
    then (let (cs', calls') = apply_positions p views cs calls in (c ∷ cs', calls'))
    else (let c' : Subsurface = record c {
      x = c.pending_x;
      y = c.pending_y;
      pending_position = false;
    } in
        let (cs', calls') =
          apply_positions p views cs (subsurface_update_position p views c' calls) in
        (c' ∷ cs', calls'))

-- `subsurface_update_visibility`
unfoldable pub subsurface_update_visibility :
    Parent → List View → Subsurface → List Call → List Call
subsurface_update_visibility p views c calls = elim (view_of p.surface views) [
  | none ↦ calls
  | some v ↦
      if not (has_view c.surface views)
      then calls
      else if c.added && v.visible && c.has_buffer
      then view_show c.surface ∷ calls
      else view_hide c.surface ∷ calls
]

-- One of the two last loops, for one child
unfoldable pub add_child :
    Parent → List View → ℕ → List Subsurface → List Call → List Subsurface × List Call
add_child p views i [] calls = ([], calls)
add_child p views i (c ∷ cs) calls =
    if c.surface == i
    then (let c' : Subsurface = record c { added = true } in
        (c' ∷ cs, subsurface_update_visibility p views c' calls))
    else let (cs', calls') = add_child p views i cs calls in (c ∷ cs', calls')

unfoldable pub add_children :
    Parent → List View → List ℕ → List Subsurface → List Call → List Subsurface × List Call
add_children p views [] cs calls = (cs, calls)
add_children p views (i ∷ is) cs calls =
    let (cs', calls') = add_child p views i cs calls in add_children p views is cs' calls'

-- The requested order becomes the order.
unfoldable pub order_committed : Parent → Parent
order_committed p = record p { below = p.pending_below; above = p.pending_above }

-- `subsurface_parent_commit`: the parent, the views and what is asked of the compositor
unfoldable pub subsurface_parent_commit :
    Parent → List View → List Call → Parent × List View × List Call
subsurface_parent_commit p views calls =
    let p' = order_committed p in
    let views' = restack_children p' views in
    let (moved, calls1) = apply_positions p' views' p.subsurfaces calls in
    let (under, calls2) = add_children p' views' p'.below moved calls1 in
    let (added, calls3) = add_children p' views' p'.above under calls2 in
    (record p' { subsurfaces = added }, views', calls3)

-- `subsurface_new`, where all memory is there: the view goes right above that of the parent.
unfoldable pub subsurface_new :
    Parent → ℕ → Bool → List View → List Call → Parent × List View × List Call
subsurface_new p i has_buffer views calls =
    let c : Subsurface = record {
      surface = i;
      x = pos 0;
      y = pos 0;
      pending_x = pos 0;
      pending_y = pos 0;
      pending_position = false;
      sync = true;
      pending = false;
      added = false;
      has_buffer = has_buffer;
    } in
    let with_own = if has_view i views then views else create_view views i in
    let with_parents =
      if has_view p.surface with_own then with_own else create_view with_own p.surface in
    let views' : List View = elim (view_of i with_parents) [
      | none ↦ with_parents
      | some v ↦ restack with_parents v p.surface true
    ] in
    let p' : Parent = record p {
      subsurfaces = c ∷ p.subsurfaces;
      pending_above = p.pending_above ++ (i ∷ []);
    } in
    (
      p',
      views',
      subsurface_update_visibility p' views' c (subsurface_update_position p' views' c calls),
    )

unfoldable pub drop_child : ℕ → List Subsurface → List Subsurface
drop_child i [] = []
drop_child i (c ∷ cs) = if c.surface == i then cs else c ∷ drop_child i cs

-- `subsurface_destroy`; the view goes with it unless a window has it.
unfoldable pub subsurface_destroy : Parent → ℕ → Bool → List View → Parent × List View
subsurface_destroy p i has_window views = (
  record p {
    subsurfaces = drop_child i p.subsurfaces;
    pending_below = unlink i p.pending_below;
    pending_above = unlink i p.pending_above;
    below = unlink i p.below;
    above = unlink i p.above;
  },
  if has_window then views else remove i views,
)

-- `set_position`
unfoldable pub set_position : ℕ → ℤ → ℤ → List Subsurface → List Subsurface
set_position i x y [] = []
set_position i x y (c ∷ cs) =
    if c.surface == i
    then record c { pending_x = x; pending_y = y; pending_position = true } ∷ cs
    else c ∷ set_position i x y cs

-- `handle_parent_view_change` of each of the subsurfaces
unfoldable pub handle_parent_view_change :
    Parent → List View → List Subsurface → List Call → List Call
handle_parent_view_change p views [] calls = calls
handle_parent_view_change p views (c ∷ cs) calls =
    handle_parent_view_change p views cs (subsurface_update_position p views c calls)
