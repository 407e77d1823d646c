-- ===== src/Stacking/Tests.antt =====
-- A few views, and the theorem at them.
use neoswc.Prelude.{ℕ, ◌≡◌, refl, true, false, List, [], ◌∷◌}
use neoswc.Stacking.{
  View, remove, place, set_stack_layer, restack_view_for_layer, window_lower, restack, beside,
  create_view, raise_window, above_window, insert_at,
}
use neoswc.Stacking.Layers.{in_order, top_of_layer, set_stack_layer-top}

abbrev view : ℕ → ℕ → View
view i layer = record {
  id = i;
  stack_layer = layer;
  visible = true;
  always_top = false;
  has_window = true;
}

-- A panel, three windows and a wallpaper
abbrev desktop : List View
desktop = view 1 3 ∷ view 2 2 ∷ view 3 2 ∷ view 4 2 ∷ view 5 0 ∷ []

set_stack_layer-top_example :
    let views = set_stack_layer desktop (view 4 2) 3 true in
    (in_order views ≡ in_order (remove 4 desktop))
    × (top_of_layer 4 3 views ≡ true)
    × (remove 4 views ≡ remove 4 desktop)
unfolding remove
set_stack_layer-top_example = set_stack_layer-top desktop (view 4 2) 3 refl

-- The window at the back of its layer is lowered, and comes before another.
lowered_forward :
    window_lower desktop (view 4 2) ≡ view 1 3 ∷ view 2 2 ∷ view 4 2 ∷ view 3 2 ∷ view 5 0 ∷ []
unfolding restack_view_for_layer remove place
lowered_forward = refl

-- A window that is stacked above the panel leaves its layer.
out_of_layer :
    restack desktop (view 3 2) 1 true ≡ view 3 2 ∷ view 1 3 ∷ view 2 2 ∷ view 4 2 ∷ view 5 0 ∷ []
unfolding restack remove beside
out_of_layer = refl

-- A new view is over all others until it is put into its layer, and raised to the top of the windows.
new_window : in_order (create_view desktop 6) ≡ false
unfolding create_view
new_window = refl

raised : raise_window desktop (view 4 2) ≡ view 1 3 ∷ view 4 2 ∷ view 2 2 ∷ view 3 2 ∷ view 5 0 ∷ []
unfolding raise_window remove above_window insert_at
raised = refl
