-- ===== src/OutputManagement/Stale.antt =====
-- libswc/output_management.c: proofs about configurations of a layout that is no more.
use neoswc.Prelude.{
  ℕ, suc, ◌+◌, ◌%◌, ◌≤◌, ◌<◌, ◌≡◌, ◌≢◌, refl, sym, ap, ◌∙◌, subst, Bool, true, false, not, ◌&&◌,
  List, [], ◌∷◌, ◌==◌, length, arith, if◌then◌else◌, if_ind,
}
use neoswc.Prelude.Int.{ℤ}
use neoswc.Screen.{Pixman}
use neoswc.OutputManagement.{
  ConfigHead, Configuration, World, output_management_update, stays, move_screen,
}
use neoswc.OutputManagement.Requests.{
  config_is_valid, Answer, cancelled, move_all, config_finish, config_use, config_apply,
}
use neoswc.OutputManagement.Apply.{places, use-fresh}

module _ {R : Type 0} (pixman : Pixman R) where
  -- How many of the heads move a screen
  abbrev moves : List ConfigHead → World → ℕ
  moves [] w = 0
  moves (ch ∷ chs) w =
      let rest =
        moves chs (if ch.position_set then move_screen pixman w ch.screen ch.x ch.y else w) in
      if ch.position_set && not (stays ch.screen ch.x ch.y w.screens) then suc rest else rest

  -- The serial has gone up by n, round 2^32, and nothing has happened if n is 0.
  abbrev Bumped : ℕ → World → World → Type 0
  Bumped n w w' = (w'.current_serial ≡ (w.current_serial + n) % 4294967296) × (n ≡ 0 → w' ≡ w)

  move_screen-Bumped :
      (w : World) (n : ℕ) (x y : ℤ)
      → w.current_serial < 4294967296
      → Bumped (if stays n x y w.screens then 0 else 1) w (move_screen pixman w n x y)
  unfolding move_screen output_management_update
  move_screen-Bumped w n x y h = ground (arith, h)

  moves-bound : (chs : List ConfigHead) (w : World) → moves chs w ≤ length chs
  moves-bound [] w = omega arith
  moves-bound (ch ∷ chs) w =
      let w' = if ch.position_set then move_screen pixman w ch.screen ch.x ch.y else w in
      ground (arith, moves-bound chs w')

  -- One head, and the rest
  abbrev bumped : Bool → ConfigHead → World → Bool
  bumped set ch w = set && not (stays ch.screen ch.x ch.y w.screens)

  head-Bumped :
      (set : Bool) (ch : ConfigHead) (w : World)
      → w.current_serial < 4294967296
      → Bumped
          (if bumped set ch w then 1 else 0)
          w
          (if set then move_screen pixman w ch.screen ch.x ch.y else w)
  head-Bumped false ch w h = (omega arith, λ _. refl)
  head-Bumped true ch w h = ground (arith, move_screen-Bumped w ch.screen ch.x ch.y h)

  Bumped-trans : (m n : ℕ) (a b c : World) → Bumped m a b → Bumped n b c → Bumped (m + n) a c
  Bumped-trans m n a b c (p, p') (r, r') = (omega arith, λ e. r' (omega arith) ∙ p' (omega arith))

  move_all-Bumped :
      (chs : List ConfigHead) (w : World)
      → w.current_serial < 4294967296
      → Bumped (moves chs w) w (move_all pixman chs w)
  unfolding move_all
  move_all-Bumped [] w h = (omega arith, λ _. refl)
  move_all-Bumped (ch ∷ chs) w h =
      let w' = if ch.position_set then move_screen pixman w ch.screen ch.x ch.y else w in
      let here = head-Bumped ch.position_set ch w h in
      let there = move_all-Bumped chs w' (omega arith) in
      let both =
        Bumped-trans (if bumped ch.position_set ch w then 1 else 0) (moves chs w') w w'
          (move_all pixman chs w') here there in
      let count : moves (ch ∷ chs) w
          ≡ (if bumped ch.position_set ch w then 1 else 0) + moves chs w' =
        ground arith in
      subst (λ n. Bumped n w (move_all pixman chs w')) (sym count) both

  finish-Bumped :
      (c : Configuration) (w : World)
      → w.current_serial < 4294967296
      → let w' = (config_finish pixman c true w).0 in (n : ℕ) × (n ≤ length c.heads) × Bumped n w w'
  unfolding config_finish
  finish-Bumped c w h =
      let Moved : World → Type 0 = λ w'. (n : ℕ) × (n ≤ length c.heads) × Bumped n w w' in
      let still : Moved w = (0, omega arith, (omega arith, λ _. refl)) in
      if_ind (λ (r : World × Answer). Moved r.0) (not (c.serial == w.current_serial)) (λ _. still)
        λ _.
          if_ind (λ (r : World × Answer). Moved r.0) (not (config_is_valid c w.screens))
            (λ _. still) λ _. (moves c.heads w, moves-bound c.heads w, move_all-Bumped c.heads w h)

  stale_cancelled :
      (old : Configuration) (apply : Bool) (w : World)
      → old.used ≡ false
      → old.serial ≢ w.current_serial
      → ((config_use pixman apply old w).1 ≡ w) × ((config_use pixman apply old w).2 ≡ cancelled)
  unfolding config_use config_finish
  stale_cancelled old apply w fresh differs = ground (arith, fresh, differs)

  other_serial :
      (c : Configuration) (v w : World)
      → w.current_serial < 4294967296
      → length c.heads < 4294967296
      → (n : ℕ) × (n ≤ length c.heads) × Bumped n w v
      → places v.screens ≢ places w.screens
      → w.current_serial ≢ v.current_serial
  other_serial c v w h short (n, le, (serial, still)) moved e =
      moved (ap (λ (u : World). places u.screens) (still (omega arith)))

  -- Once a configuration has moved a screen, every configuration that was made for the layout before
  -- is cancelled and changes nothing, applied or tested. A configuration names fewer than 2^32 heads.
  pub config_apply-cancels :
      (c old : Configuration) (apply : Bool) (w : World)
      → w.current_serial < 4294967296
      → length c.heads < 4294967296
      → c.used ≡ false
      → old.used ≡ false
      → old.serial ≡ w.current_serial
      → let w' = (config_apply pixman c w).1 in
        places w'.screens ≢ places w.screens
        → ((config_use pixman apply old w').1 ≡ w')
          × ((config_use pixman apply old w').2 ≡ cancelled)
  config_apply-cancels c old apply w h short fresh fresh' same moved =
      let result =
        ap (λ (t : Configuration × World × Answer). t.1) (use-fresh pixman true c w fresh) in
      let v = (config_finish pixman c true w).0 in
      let moved' : places v.screens ≢ places w.screens =
        subst (λ (u : World). places u.screens ≢ places w.screens) result moved in
      let differs = other_serial c v w h short (finish-Bumped c w h) moved' in
      subst
        (λ (u : World).
          ((config_use pixman apply old u).1 ≡ u) × ((config_use pixman apply old u).2 ≡ cancelled))
        (sym result) (stale_cancelled old apply v fresh' (λ e. differs (sym same ∙ e)))
