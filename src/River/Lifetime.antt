-- ===== src/River/Lifetime.antt =====
-- wm/river_wm.c: what a queued event points at is still there when the queue is flushed.
mod States
pub mod Steps
use neoswc.Prelude.{
  ℕ, ◌≡◌, refl, Bool, true, false, not, ◌&&◌, ◌||◌, none, some, List, [], ◌∷◌, ◌++◌, map, arith,
  ◌==◌, if◌then◌else◌, if_ind, option_ind, Option,
}
use neoswc.Transaction.{is_some}
use neoswc.Cohort.{Cohort, Outcome}
use neoswc.River.Events.{
  Message, Binding, BindingEvent, find_binding, is_for_window, is_for_binding, drop_window_events,
  drop_binding_events, pressed, released, stop_repeat, ate_unbound, modifiers, window_interaction,
}
use neoswc.River.Keys.{modify_binding, remove_binding, held_by, find_match, find_by_swc, Layout}
use neoswc.River.Sequence.{each_window}
use neoswc.River.State.{Wm, Env, find_window, RiverWindow, RiverOutput, modify, free_window}

-- Whether an event of the queue points at window, or at binding, `i`.
unfoldable pub for_window : ℕ → List BindingEvent → Bool
for_window i [] = false
for_window i (e ∷ es) = is_for_window i e || for_window i es

unfoldable pub for_binding : ℕ → List BindingEvent → Bool
for_binding i [] = false
for_binding i (e ∷ es) = is_for_binding i e || for_binding i es

unfoldable pub there : ℕ → List RiverWindow → Bool
there i ws = is_some (find_window i ws)

unfoldable pub bound : ℕ → List Binding → Bool
bound i bs = is_some (find_binding i bs)

-- Every window and every binding that a queued event points at is allocated.
pub record Live (wm : Wm) : Type 0 where
  pub windows_live : (i : ℕ) → for_window i wm.pending ≡ true → there i wm.windows ≡ true
  pub bindings_live : (i : ℕ) → for_binding i wm.pending ≡ true → bound i wm.bindings ≡ true

pub for_window-append :
    (i : ℕ) (es : List BindingEvent) (e : BindingEvent)
    → for_window i (es ++ e ∷ []) ≡ (for_window i es || is_for_window i e)
unfolding for_window
for_window-append i [] e = ground arith
for_window-append i (e' ∷ es) e = ground (arith, for_window-append i es e)

pub for_binding-append :
    (i : ℕ) (es : List BindingEvent) (e : BindingEvent)
    → for_binding i (es ++ e ∷ []) ≡ (for_binding i es || is_for_binding i e)
unfolding for_binding
for_binding-append i [] e = ground arith
for_binding-append i (e' ∷ es) e = ground (arith, for_binding-append i es e)

pub for_window-drop :
    (i j : ℕ) (es : List BindingEvent)
    → for_window j (drop_window_events i es) ≡ (not (i == j) && for_window j es)
unfolding for_window drop_window_events
for_window-drop i j [] = ground arith
for_window-drop i j (e ∷ es) = ground (arith, for_window-drop i j es)

pub for_binding-drop_window :
    (i j : ℕ) (es : List BindingEvent) → for_binding j (drop_window_events i es) ≡ for_binding j es
unfolding for_binding drop_window_events
for_binding-drop_window i j [] = refl
for_binding-drop_window i j (e ∷ es) = ground (arith, for_binding-drop_window i j es)

pub for_binding-drop :
    (i j : ℕ) (es : List BindingEvent)
    → for_binding j (drop_binding_events i es) ≡ (not (i == j) && for_binding j es)
unfolding for_binding drop_binding_events
for_binding-drop i j [] = ground arith
for_binding-drop i j (e ∷ es) = ground (arith, for_binding-drop i j es)

pub for_window-drop_binding :
    (i j : ℕ) (es : List BindingEvent) → for_window j (drop_binding_events i es) ≡ for_window j es
unfolding for_window drop_binding_events
for_window-drop_binding i j [] = refl
for_window-drop_binding i j (e ∷ es) = ground (arith, for_window-drop_binding i j es)

pub there-free :
    (i j : ℕ) (ws : List RiverWindow) → (i == j) ≡ false → there j (free_window i ws) ≡ there j ws
unfolding there free_window find_window
there-free i j [] ne = refl
there-free i j (w ∷ ws) ne = ground (arith, there-free i j ws ne)

pub there-modify :
    (i j : ℕ) (g : RiverWindow → RiverWindow) (ws : List RiverWindow)
    → ((w : RiverWindow) → (g w).id ≡ w.id)
    → there j (modify i g ws) ≡ there j ws
unfolding there modify find_window
there-modify i j g [] same = refl
there-modify i j g (w ∷ ws) same = ground (arith, there-modify i j g ws same, same w)

pub there-map :
    (j : ℕ) (g : RiverWindow → RiverWindow) (ws : List RiverWindow)
    → ((w : RiverWindow) → (g w).id ≡ w.id)
    → there j (map g ws) ≡ there j ws
unfolding there find_window
there-map j g [] same = refl
there-map j g (w ∷ ws) same = ground (arith, there-map j g ws same, same w)

pub there-append :
    (j : ℕ) (ws : List RiverWindow) (w : RiverWindow)
    → there j ws ≡ true
    → there j (ws ++ w ∷ []) ≡ true
unfolding there find_window
there-append j [] w h = ground arith
there-append j (w' ∷ ws) w h = ground (arith, there-append j ws w)

pub there-each :
    (j : ℕ) (g : RiverWindow → RiverWindow × List Message) (ws : List RiverWindow)
    (sent : List Message)
    → ((w : RiverWindow) → (g w).0.id ≡ w.id)
    → there j (each_window g ws sent).0 ≡ there j ws
unfolding there each_window find_window
there-each j g [] sent same = refl
there-each j g (w ∷ ws) sent same =
    ground (arith, there-each j g ws ((if w.closed then (w, []) else g w).1 ++ sent) same, same w)

pub bound-modify :
    (i j : ℕ) (g : Binding → Binding) (bs : List Binding)
    → ((b : Binding) → (g b).id ≡ b.id)
    → bound j (modify_binding i g bs) ≡ bound j bs
unfolding bound modify_binding find_binding
bound-modify i j g [] same = refl
bound-modify i j g (b ∷ bs) same = ground (arith, bound-modify i j g bs same, same b)

pub bound-remove :
    (i j : ℕ) (bs : List Binding) → (i == j) ≡ false → bound j (remove_binding i bs) ≡ bound j bs
unfolding bound remove_binding find_binding
bound-remove i j [] ne = refl
bound-remove i j (b ∷ bs) ne = ground (arith, bound-remove i j bs ne)

pub bound_first : (b : Binding) (bs : List Binding) → bound b.id (b ∷ bs) ≡ true
unfolding bound find_binding
bound_first b bs = ground arith

pub bound_later :
    (j : ℕ) (b : Binding) (bs : List Binding) → bound j bs ≡ true → bound j (b ∷ bs) ≡ true
unfolding bound find_binding
bound_later j b bs h = ground arith

-- What the searches find is there.
pub bound-find :
    (i : ℕ) (bs : List Binding) (b : Binding) → find_binding i bs ≡ some b → bound b.id bs ≡ true
unfolding bound find_binding
bound-find i [] b e = ground arith
bound-find i (b' ∷ bs) b e = ground (arith, bound-find i bs b)

pub bound-held :
    (keycode : ℕ) (bs : List Binding) (b : Binding)
    → held_by keycode bs ≡ some b
    → bound b.id bs ≡ true
unfolding bound held_by find_binding
bound-held keycode [] b e = ground arith
bound-held keycode (b' ∷ bs) b e = ground (arith, bound-held keycode bs b)

pub bound-match :
    (l : Layout) (keycode effective : ℕ) (bs : List Binding) (b : Binding)
    → find_match l keycode effective bs ≡ some b
    → bound b.id bs ≡ true
unfolding bound find_match find_binding
bound-match l keycode effective [] b e = ground arith
bound-match l keycode effective (b' ∷ bs) b e = ground (arith, bound-match l keycode effective bs b)

pub there-find_by_swc :
    (k : ℕ) (ws : List RiverWindow) (w : RiverWindow)
    → find_by_swc k ws ≡ some w
    → there w.id ws ≡ true
unfolding there find_by_swc find_window
there-find_by_swc k [] w e = ground arith
there-find_by_swc k (w' ∷ ws) w e = ground (arith, there-find_by_swc k ws w)
