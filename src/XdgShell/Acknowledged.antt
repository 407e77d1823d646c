-- ===== src/XdgShell/Acknowledged.antt =====
-- libswc/xdg_shell.c: proofs about the serials of configure events.
use neoswc.Prelude.{
  ℕ, ◌+◌, ◌≤◌, ◌<◌, ◌≡◌, refl, ◌∙◌, Bool, false, List, [], ◌∷◌, arith, ◌==◌, length,
}
use neoswc.Window.{Mode}
use neoswc.XdgShell.{
  Toplevel, configure, focus, unfocus, close, set_mode, send_configure, ack_configure,
}

-- The events of a window other than a configure and an acknowledgement
pub data Event : Type 0 where
  focused : Bool → Event
  unfocused closed : Event
  mode_set : Bool → Mode → Event

unfoldable pub handle : Toplevel → Event → Toplevel
handle t (focused allocated) = focus allocated t
handle t unfocused = unfocus t
handle t closed = close t
handle t (mode_set allocated mode) = set_mode allocated t mode

unfoldable pub run : Toplevel → List Event → Toplevel
run t [] = t
run t (e ∷ es) = run (handle t e) es

-- What an event leaves alone, and how far the serials move
abbrev Quiet : ℕ → Toplevel → Toplevel → Type 0
Quiet n t t' =
    (t'.configure_serial ≡ t.configure_serial)
    × (t'.acknowledged ≡ t.acknowledged)
    × (t.last_serial ≤ t'.last_serial)
    × (t'.last_serial ≤ t.last_serial + n)

handle-Quiet : (t : Toplevel) (e : Event) → t.last_serial + 1 < 4294967296 → Quiet 1 t (handle t e)
unfolding handle focus unfocus close set_mode send_configure
handle-Quiet t (focused a) h = (refl, refl, omega arith, omega arith)
handle-Quiet t unfocused h = (refl, refl, omega arith, omega arith)
handle-Quiet t closed h = (refl, refl, omega arith, omega arith)
handle-Quiet t (mode_set a m) h = (refl, refl, omega arith, omega arith)

run-Quiet :
    (t : Toplevel) (es : List Event)
    → t.last_serial + length es < 4294967296
    → Quiet (length es) t (run t es)
unfolding run
run-Quiet t [] h = (refl, refl, omega arith, omega arith)
run-Quiet t (e ∷ es) h =
    let (a, b, c, d) = handle-Quiet t e (omega arith) in
    let (a', b', c', d') = run-Quiet (handle t e) es (omega arith) in
    (a' ∙ a, b' ∙ b, omega arith, omega arith)

configure_serial :
    (t : Toplevel) (w h : ℕ)
    → t.last_serial + 1 < 4294967296
    → let c = configure t w h in
      (c.configure_serial ≡ t.last_serial + 1)
      × (c.last_serial ≡ t.last_serial + 1)
      × (c.acknowledged ≡ false)
unfolding configure send_configure
configure_serial t w h small = (omega arith, omega arith, refl)

ack_lem :
    (t : Toplevel) (serial n : ℕ)
    → t.configure_serial ≡ n
    → t.acknowledged ≡ false
    → (ack_configure t serial).acknowledged ≡ (serial == n)
unfolding ack_configure
ack_lem t serial n a b = ground (arith, a, b)

-- After a configure, whatever changes of focus and of mode the client is told of before it answers:
-- the acknowledgement of the configure's own serial counts, and that of any other does not, neither
-- of an older one nor of the newest, which the client was sent last. The serials do not wrap.
pub ack_configure-exact :
    (t : Toplevel) (w h : ℕ) (es : List Event) (serial : ℕ)
    → t.last_serial + length es + 1 < 4294967296
    → let t' = run (configure t w h) es in
      (t'.configure_serial ≡ t.last_serial + 1)
      × (t.last_serial + 1 ≤ t'.last_serial)
      × ((ack_configure t' serial).acknowledged ≡ (serial == t.last_serial + 1))
ack_configure-exact t w h es serial small =
    let c = configure t w h in
    let (own, last, waiting) = configure_serial t w h (omega arith) in
    let (kept, still, later, _) = run-Quiet c es (omega arith) in
    (
      kept ∙ own,
      omega arith,
      ack_lem (run c es) serial (t.last_serial + 1) (kept ∙ own) (still ∙ waiting),
    )
