-- ===== src/Stacking.antt =====
-- libswc/compositor.c: the order of the views, topmost first, and the layers.
-- `compositor.views` is a list of views by number; drawing and damage are left out.
pub mod Layers
mod Tests
use neoswc.Prelude.{
  ℕ, zero, suc, Bool, true, false, not, ◌&&◌, ◌||◌, List, [], ◌∷◌, ◌++◌, ◌==◌, ltb, if◌then◌else◌,
}

-- `struct compositor_view`, with whether it has a window
pub record View : Type 0 where
  pub id : ℕ
  pub stack_layer : ℕ
  pub visible : Bool
  pub always_top : Bool
  pub has_window : Bool

-- `STACK_LAYER_NORMAL` and `STACK_LAYER_OVERLAY`
abbrev pub layer_normal : ℕ
layer_normal = 2

abbrev pub layer_overlay : ℕ
layer_overlay = 4

-- `wl_list_remove(&view->link)`
unfoldable pub remove : ℕ → List View → List View
remove i [] = []
remove i (v ∷ vs) = if v.id == i then vs else v ∷ remove i vs

-- The loop of `restack_view_for_layer` over the other views, and the insertion where it stops
unfoldable pub place : View → Bool → List View → List View
place v raise [] = v ∷ []
place v raise (o ∷ os) =
    if ltb v.stack_layer o.stack_layer
    then o ∷ place v raise os
    else if (o.stack_layer == v.stack_layer) && not raise
    then o ∷ v ∷ os
    else v ∷ o ∷ os

-- Whether the loop stops at the first of the other views, which is lower, with nothing above it: the
-- place is then the head of the list, which is taken for "not found"
abbrev pub at_head : View → List View → Bool
at_head v [] = false
at_head v (o ∷ os) = not (o.id == v.id) && ltb o.stack_layer v.stack_layer

-- `restack_view_for_layer`
unfoldable pub restack_view_for_layer : List View → View → Bool → List View
restack_view_for_layer views v raise =
    if not raise && at_head v views
    then remove v.id views ++ (v ∷ [])
    else place v raise (remove v.id views)

-- `compositor_view_set_stack_layer`
unfoldable pub set_stack_layer : List View → View → ℕ → Bool → List View
set_stack_layer views v layer raise =
    if v.stack_layer == layer
    then if raise then restack_view_for_layer views v true else views
    else restack_view_for_layer views (record v { stack_layer = layer }) raise

-- `raise_window_top`
unfoldable pub raise_window_top : List View → View → List View
raise_window_top views v =
    restack_view_for_layer views (record v { stack_layer = layer_overlay }) true

-- `swc_window_raise` and `swc_shell_surface_raise`
abbrev pub window_raise : List View → View → List View
window_raise views v = restack_view_for_layer views v true

-- `swc_window_lower` and `swc_shell_surface_lower`
abbrev pub window_lower : List View → View → List View
window_lower views v = restack_view_for_layer views v false

-- The loop of `raise_window` over the other views: how many stay above the view. An invisible view
-- counts only with one behind it that does.
unfoldable pub above_window : List View → ℕ
above_window [] = 0
above_window (o ∷ os) =
    let others = above_window os in
    if not o.visible
    then if others == 0 then 0 else suc others
    else if ltb layer_normal o.stack_layer || o.always_top
    then suc others
    else if ltb o.stack_layer layer_normal || o.has_window
    then 0
    else suc others

unfoldable pub insert_at : ℕ → View → List View → List View
insert_at zero v vs = v ∷ vs
insert_at (suc n) v [] = v ∷ []
insert_at (suc n) v (o ∷ os) = o ∷ insert_at n v os

-- `raise_window` of the view with the window
unfoldable pub raise_window : List View → View → List View
raise_window views v =
    let others = remove v.id views in
    if not v.visible then views else insert_at (above_window others) v others

-- The insertion before or behind a sibling
unfoldable pub beside : View → ℕ → Bool → List View → List View
beside v sibling above [] = v ∷ []
beside v sibling above (o ∷ os) =
    if o.id == sibling
    then if above then v ∷ o ∷ os else o ∷ v ∷ os
    else o ∷ beside v sibling above os

-- `compositor_view_restack`; a view that is there already is put where it was.
unfoldable pub restack : List View → View → ℕ → Bool → List View
restack views v sibling above =
    if v.id == sibling then views else beside v sibling above (remove v.id views)

-- `compositor_create_view`, on top of all
unfoldable pub create_view : List View → ℕ → List View
create_view views i =
    record {
      id = i;
      stack_layer = layer_normal;
      visible = false;
      always_top = false;
      has_window = false;
    }
    ∷ views
