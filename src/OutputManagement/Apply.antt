-- ===== src/OutputManagement/Apply.antt =====
-- libswc/output_management.c: proofs about the screens that a configuration moves.
use neoswc.Prelude.{
  ℕ, ◌≡◌, refl, sym, ap, ◌∙◌, subst, Bool, true, false, not, ◌&&◌, none, some, List, [], ◌∷◌, ◌==◌,
  map, arith, if◌then◌else◌, if_ind,
}
use neoswc.Prelude.Int.{ℤ}
use neoswc.LayerShell.Configure.{eqb_ℤ-eq}
use neoswc.Screen.{Pixman, Screen, swc_screen_set_position, screen_update_usable_geometry}
use neoswc.OutputManagement.{
  ConfigHead, Configuration, World, output_management_update, stays, move_in, move_screen,
}
use neoswc.OutputManagement.Requests.{
  config_head_get, config_is_valid, Answer, cancelled, failed, succeeded, already_used, move_all,
  config_finish, config_use, config_apply, config_test,
}

-- A screen's number, and where it lies
abbrev pub Place : Type 0
Place = ℕ × ℤ × ℤ

abbrev pub place_of : Screen → Place
place_of s = (s.number, s.geometry.x, s.geometry.y)

abbrev pub places : List Screen → List Place
places [] = []
places (s ∷ ss) = place_of s ∷ places ss

abbrev pub put : ℕ → ℤ → ℤ → Place → Place
put n x y p = if p.0 == n then (p.0, x, y) else p

-- Where a screen lies that the heads of a configuration ask for
abbrev pub wanted : List ConfigHead → Place → Place
wanted heads p = elim (config_head_get heads p.0) [
  | none ↦ p
  | some ch ↦ if ch.position_set then (p.0, ch.x, ch.y) else p
]

-- No screen has two heads.
abbrev pub distinct_heads : List ConfigHead → Bool
distinct_heads [] = true
distinct_heads (ch ∷ chs) =
    (elim (config_head_get chs ch.screen) [ none ↦ true | some _ ↦ false ]) && distinct_heads chs

-- The heads, one after the other
abbrev step_heads : List ConfigHead → Place → Place
step_heads [] p = p
step_heads (ch ∷ chs) p = step_heads chs (if ch.position_set then put ch.screen ch.x ch.y p else p)

step_heads-absent :
    (chs : List ConfigHead) (p : Place) → config_head_get chs p.0 ≡ none → step_heads chs p ≡ p
unfolding config_head_get
step_heads-absent [] p e = refl
step_heads-absent (ch ∷ chs) p e = ground (arith, e, step_heads-absent chs p)

step_heads-wanted :
    (chs : List ConfigHead) (p : Place)
    → distinct_heads chs ≡ true
    → step_heads chs p ≡ wanted chs p
unfolding config_head_get
step_heads-wanted [] p d = refl
step_heads-wanted (ch ∷ chs) p d = ground (
  arith,
  d,
  step_heads-wanted chs p,
  step_heads-absent chs p,
  step_heads-absent chs (p.0, ch.x, ch.y),
)

map-map : (f g : Place → Place) (ps : List Place) → map f (map g ps) ≡ map (λ p. f (g p)) ps
map-map f g [] = refl
map-map f g (p ∷ ps) = ap (λ l. f (g p) ∷ l) (map-map f g ps)

map_same :
    (f g : Place → Place) → ((p : Place) → f p ≡ g p) → (ps : List Place) → map f ps ≡ map g ps
map_same f g h [] = refl
map_same f g h (p ∷ ps) = ground (arith, h p, map_same f g h ps)

stays-places :
    (n : ℕ) (x y : ℤ) (ss : List Screen)
    → stays n x y ss ≡ true
    → map (put n x y) (places ss) ≡ places ss
unfolding stays
stays-places n x y [] e = refl
stays-places n x y (s ∷ ss) e =
    ground (arith, e, stays-places n x y ss, eqb_ℤ-eq s.geometry.x x, eqb_ℤ-eq s.geometry.y y)

map_id : (ps : List Place) → map (λ p. p) ps ≡ ps
map_id [] = refl
map_id (p ∷ ps) = ap (λ l. p ∷ l) (map_id ps)

module _ {R : Type 0} (pixman : Pixman R) where
  set_position-place :
      (s : Screen) (x y : ℤ) → place_of (swc_screen_set_position pixman s x y) ≡ (s.number, x, y)
  unfolding swc_screen_set_position screen_update_usable_geometry
  set_position-place s x y = ground (arith, eqb_ℤ-eq s.geometry.x x, eqb_ℤ-eq s.geometry.y y)

  move_in-places :
      (n : ℕ) (x y : ℤ) (ss : List Screen)
      → places (move_in pixman n x y ss) ≡ map (put n x y) (places ss)
  unfolding move_in
  move_in-places n x y [] = refl
  move_in-places n x y (s ∷ ss) = ground (arith, set_position-place s x y, move_in-places n x y ss)

  move_screen-places :
      (w : World) (n : ℕ) (x y : ℤ)
      → places (move_screen pixman w n x y).screens ≡ map (put n x y) (places w.screens)
  unfolding move_screen output_management_update
  move_screen-places w n x y =
      if_ind (λ (w' : World). places w'.screens ≡ map (put n x y) (places w.screens))
        (stays n x y w.screens) (λ e. sym (stays-places n x y w.screens e))
        λ _. move_in-places n x y w.screens

  head-places :
      (set : Bool) (w : World) (n : ℕ) (x y : ℤ)
      → places (if set then move_screen pixman w n x y else w).screens
        ≡ map (λ p. if set then put n x y p else p) (places w.screens)
  head-places true w n x y = move_screen-places w n x y
  head-places false w n x y = sym (map_id (places w.screens))

  move_all-places :
      (chs : List ConfigHead) (w : World)
      → places (move_all pixman chs w).screens ≡ map (step_heads chs) (places w.screens)
  unfolding move_all
  move_all-places [] w = sym (map_id (places w.screens))
  move_all-places (ch ∷ chs) w =
      let w' = if ch.position_set then move_screen pixman w ch.screen ch.x ch.y else w in
      move_all-places chs w'
      ∙ ap (map (step_heads chs)) (head-places ch.position_set w ch.screen ch.x ch.y)
      ∙ map-map (step_heads chs) (λ p. if ch.position_set then put ch.screen ch.x ch.y p else p)
          (places w.screens)

  -- What an answer says of the screens: they are where the heads ask, or nothing has changed at all.
  abbrev pub Answered : Configuration → World → World × Answer → Type 0
  Answered c w (w', succeeded) = places w'.screens ≡ map (wanted c.heads) (places w.screens)
  Answered c w (w', _) = w' ≡ w

  abbrev first_answer : Configuration → World → Answer
  first_answer c w =
      if not (c.serial == w.current_serial)
      then cancelled
      else if not (config_is_valid c w.screens)
      then failed
      else succeeded

  finish-answer :
      (c : Configuration) (apply : Bool) (w : World)
      → (config_finish pixman c apply w).1 ≡ first_answer c w
  unfolding config_finish
  finish-answer c apply w = ground arith

  finish-test : (c : Configuration) (w : World) → (config_finish pixman c false w).0 ≡ w
  unfolding config_finish
  finish-test c w = ground arith

  finish-Answered :
      (c : Configuration) (w : World)
      → distinct_heads c.heads ≡ true
      → Answered c w (config_finish pixman c true w)
  unfolding config_finish
  finish-Answered c w d =
      if_ind (Answered c w) (not (c.serial == w.current_serial)) (λ _. refl)
        λ _.
          if_ind (Answered c w) (not (config_is_valid c w.screens)) (λ _. refl)
            λ _.
              move_all-places c.heads w
              ∙ map_same (step_heads c.heads) (wanted c.heads) (λ p. step_heads-wanted c.heads p d)
                  (places w.screens)

  pub use-fresh :
      (apply : Bool) (c : Configuration) (w : World)
      → c.used ≡ false
      → let r = config_finish pixman c apply w in
        config_use pixman apply c w ≡ (record c { used = true }, r.0, r.1)
  unfolding config_use
  use-fresh apply c w fresh = ground (arith, fresh)

  use-again :
      (apply : Bool) (c : Configuration) (w : World)
      → c.used ≡ true
      → config_use pixman apply c w ≡ (c, w, already_used)
  unfolding config_use
  use-again apply c w used = ground (arith, used)

  -- The first answer of a configuration is that it came too late, if the serial is not the current
  -- one, else that it failed, if it is not valid, else that it succeeded. Applied, it moves every
  -- screen that a head gives a position there, and no other screen, or changes nothing; a test gives
  -- the same answer and changes nothing; and a second use is an error that changes nothing. No screen
  -- has two heads in it.
  pub config_apply-Answered :
      (c : Configuration) (w : World)
      → c.used ≡ false
      → distinct_heads c.heads ≡ true
      → let (c', w', answer) = config_apply pixman c w in
        (answer ≡ (
          if not (c.serial == w.current_serial)
          then cancelled
          else if not (config_is_valid c w.screens)
          then failed
          else succeeded))
        × Answered c w (w', answer)
        × ((config_test pixman c w).1 ≡ w)
        × ((config_test pixman c w).2 ≡ answer)
        × (config_apply pixman c' w' ≡ (c', w', already_used))
  config_apply-Answered c w fresh d =
      let applied = use-fresh true c w fresh in
      let tested = use-fresh false c w fresh in
      let r = config_finish pixman c true w in
      let answer =
        ap (λ (t : Configuration × World × Answer). t.2) applied ∙ finish-answer c true w in
      (
        answer,
        subst (λ (t : Configuration × World × Answer). Answered c w (t.1, t.2)) (sym applied)
            (finish-Answered c w d),
        ap (λ (t : Configuration × World × Answer). t.1) tested ∙ finish-test c w,
        ap (λ (t : Configuration × World × Answer). t.2) tested
            ∙ finish-answer c false w
            ∙ sym answer,
        subst
            (λ (t : Configuration × World × Answer).
              config_apply pixman t.0 t.1 ≡ (t.0, t.1, already_used))
            (sym applied) (use-again true (record c { used = true }) r.0 refl),
      )
