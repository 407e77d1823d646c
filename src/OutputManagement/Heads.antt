-- ===== src/OutputManagement/Heads.antt =====
-- libswc/output_management.c: the managers, and the heads that they are told of.
use neoswc.Prelude.{
  ℕ, Bool, not, ◌&&◌, ◌||◌, Option, none, some, List, [], ◌∷◌, ◌==◌, if◌then◌else◌,
}
use neoswc.Screen.{Screen}
use neoswc.OutputManagement.{
  Head, Manager, Mode, Output, Message, World, head_sent, name_sent, description_sent, mode_sent,
  current_mode_sent, physical_size_sent, mode_size_sent, refresh_sent, preferred_sent, enabled_sent,
  transform_sent, scale_sent, identity_sent, position_sent, done_sent, finished_sent,
}

-- What libwayland and the screens answer: the output of a screen, its mode, whether the objects can
-- be made, the numbers of the objects of a head and of its modes, and whether the version of the
-- manager's object has make, model and serial number
pub record Surroundings : Type 0 where
  pub output : ℕ → Option Output
  pub current_mode : ℕ → Mode
  pub head_object : ℕ → Option ℕ
  pub mode_object : ℕ → Mode → Option ℕ
  pub has_identity : Bool

abbrev add_if : Bool → Message → List Message → List Message
add_if b m sent = if b then m ∷ sent else sent

-- `mode_equal`
unfoldable pub mode_equal : Mode → Mode → Bool
mode_equal a b = (a.width == b.width) && (a.height == b.height) && (a.refresh == b.refresh)

-- The body of the loop of `send_head` for a mode with an object
abbrev send_mode : ℕ → ℕ → Mode → Mode → List Message → List Message
send_mode head object current m sent =
    add_if (mode_equal current m) (current_mode_sent head object) (
      add_if m.preferred (preferred_sent object) (
        add_if (not (m.refresh == 0)) (refresh_sent object m.refresh)
          (mode_size_sent object m.width m.height ∷ mode_sent head object ∷ sent)))

-- The loop of `send_head`: the objects of the modes, newest first, and what is sent
unfoldable pub send_modes :
    (Mode → Option ℕ) → ℕ → Mode → List Mode → List ℕ → List Message → List ℕ × List Message
send_modes make head current [] objects sent = (objects, sent)
send_modes make head current (m ∷ ms) objects sent = elim (make m) [
  | none ↦ send_modes make head current ms objects sent
  | some o ↦ send_modes make head current ms (o ∷ objects) (send_mode head o current m sent)
]

-- `send_head` for a screen with the output, and an object
unfoldable pub describe :
    Surroundings → Manager → Screen → Output → ℕ → List Message → Manager × List Message
describe env m s out object sent =
    let sized =
      add_if (not (out.physical_width == 0) || not (out.physical_height == 0))
        (physical_size_sent object out.physical_width out.physical_height)
        (description_sent object out.name
          ∷ name_sent object out.name
          ∷ head_sent m.object object
          ∷ sent) in
    let (modes, listed) =
      send_modes (env.mode_object s.number) object (env.current_mode s.number) out.modes [] sized in
    (
      record m { heads = record { object = object; screen = s.number; modes = modes } ∷ m.heads },
      add_if env.has_identity (identity_sent object) (
          scale_sent object
          ∷ transform_sent object
          ∷ position_sent object s.geometry.x s.geometry.y
          ∷ enabled_sent object
          ∷ listed),
    )

-- `send_head`
unfoldable pub send_head : Surroundings → Manager → Screen → List Message → Manager × List Message
send_head env m s sent = elim (env.output s.number) [
  | none ↦ (m, sent)
  | some out ↦ elim (env.head_object s.number) [
    | none ↦ (m, sent)
    | some object ↦ describe env m s out object sent
  ]
]

-- The loop of `manager_send_all`
unfoldable pub send_heads :
    Surroundings → List Screen → Manager → List Message → Manager × List Message
send_heads env [] m sent = (m, sent)
send_heads env (s ∷ ss) m sent =
    let (m', sent') = send_head env m s sent in send_heads env ss m' sent'

-- `bind_output_manager` for an object that could be made, with `manager_send_all`
unfoldable pub bind_output_manager : Surroundings → World → ℕ → World
bind_output_manager env w object =
    let (m, sent) = send_heads env w.screens (record { object = object; heads = [] }) w.sent in
    record w { managers = m ∷ w.managers; sent = done_sent object w.current_serial ∷ sent }

unfoldable pub drop_manager : ℕ → List Manager → List Manager
drop_manager i [] = []
drop_manager i (m ∷ ms) = if m.object == i then ms else m ∷ drop_manager i ms

-- `manager_resource_destroy`
abbrev pub manager_resource_destroy : World → ℕ → World
manager_resource_destroy w i = record w { managers = drop_manager i w.managers }

-- `manager_stop`
unfoldable pub manager_stop : World → ℕ → World
manager_stop w i = manager_resource_destroy (record w { sent = finished_sent i ∷ w.sent }) i

unfoldable pub drop_head : ℕ → List Head → List Head
drop_head i [] = []
drop_head i (h ∷ hs) = if h.object == i then hs else h ∷ drop_head i hs

unfoldable pub drop_mode : ℕ → List ℕ → List ℕ
drop_mode i [] = []
drop_mode i (m ∷ ms) = if m == i then ms else m ∷ drop_mode i ms

-- `head_resource_destroy`, for the manager that has the head
abbrev pub head_resource_destroy : Manager → ℕ → Manager
head_resource_destroy m i = record m { heads = drop_head i m.heads }

-- `head_mode_resource_destroy`, for the head that has the mode
abbrev pub head_mode_resource_destroy : Head → ℕ → Head
head_mode_resource_destroy h i = record h { modes = drop_mode i h.modes }
