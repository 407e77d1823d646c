-- ===== src/Lib.antt =====
-- Verification of neoswc: the barrier and the cohort of windows of libswc, its surfaces and
-- subsurfaces, its input focus, keyboard, pointer, screens and their management, panels, layer
-- surfaces, toplevels, the selection and the order of its views, and the window manager's side of
-- river-window-management-v1 on top of them.
--
-- How the program works. A manager, a client of its own, lays the windows out. The compositor
-- tells it what is new and sends manage_start; the manager proposes sizes and sends manage_finish.
-- The compositor then configures every window as one cohort: each enrols in a barrier
-- (libswc/transaction.c), its commits are held back from the screen, and the cohort is over when
-- all have acknowledged or a timer of 100 ms expires. The sizes are reported, render_start is
-- sent, and behind the manager's render_finish everything appears in one frame.
--
-- The parts and their files:
--   - Prelude: numbers, tests, lists and integers that all share. Signed coordinates are kept
--     unbounded, since a signed overflow is undefined; the sums and comparisons of uint32_t go
--     through Machine and wrap, as size_t counters and serials do.
--   - Transaction: libswc/transaction.c. A transaction is a record, and a function per operation
--     returns the new state and the call of the completion handler, if any (transaction_add is
--     add, transaction_remove remove, transaction_ack ack, transaction_commit commit,
--     handle_timeout timeout). Members, Invariant, Completion and Liveness hold the proofs.
--   - Window: libswc/window.c, a window on its own, with the render hold of libswc/surface.c.
--   - Cohort: libswc/window.c, the windows that share a transaction. The static variables of
--     window.c are the record Cohort, a window is a number; the functions keep their names less
--     the prefix swc_ and swc_window_. transaction_done, join_transaction and the rest are
--     composed as in the code; a call of the done callback is returned. Invariant, Steps and
--     Preserve prove the invariant; Atomic, Gather, Present and Modes what the cohort promises.
--   - River: wm/river_wm.c. State holds the static wm as the record Wm; Events the queue of
--     binding events, Sequence the phases, Manager the life of managers, windows and objects, Keys
--     the bindings, Modifiers the masks; Steps collects all as one step function. News describes
--     what a manage sequence sends; Awake, Lifetime, Reports, Settle, Stuck and Routing hold the
--     proofs. Messages to the manager are a log, newest first.
--   - Bindings: libswc/bindings.c. Routes says which handler a press and its release reach,
--     Removal what a removal leaves.
--   - Focus: libswc/input.c. The objects of the client in focus and the others, and the enter and
--     leave events, as a log; Invariant holds the proofs.
--   - Keyboard: libswc/keyboard.c. Handlers has the three handlers, of the bindings (through
--     Bindings), of the observers and of the client; Keys the presses, releases, modifiers and the
--     reset. Held holds the proofs about the arrays of keys, Synced those about the modifiers.
--   - LayerShell: libswc/layer_shell.c. A layer surface is a record with the state that is current
--     and the one that is pending; Requests has the requests and the events of its surface,
--     Configure their proofs.
--   - Panel: libswc/panel.c, and Screen: libswc/screen.c with the tests of libswc/util.h. Zones
--     describes the strips that layer surfaces and panels keep free; Usable and Placement hold the
--     proofs. The sums of uint32_t wrap, through Prelude.Machine.
--   - Pointer: libswc/pointer.c. Position clips the pointer to the screens, Handlers has the
--     client's handler and that of the observers, Events the loops over all; the handlers of other
--     files are a parameter. Inside, Framed, Step and Buttons hold the proofs.
--   - XdgShell: libswc/xdg_shell.c. Toplevels with their states and configure events, in States
--     and Acknowledged; Positioner places popups, with its proofs in Anchored.
--   - Stacking: libswc/compositor.c, the order of the views. A list of views, topmost first;
--     Layers holds the proofs.
--   - OutputManagement: libswc/output_management.c, with the moves of libswc/screen.c. Heads is
--     what a client is told, Requests a configuration up to its application; Apply and Stale hold
--     the proofs.
--   - Subsurface: libswc/subsurface.c and libswc/subcompositor.c. The file has the requests that
--     order siblings, Commit what the commit of the parent does, Roles who is a subsurface of
--     whom; Segments and Sides are lemmas on lists, Siblings, Ordered and Roles/Ends hold the
--     proofs.
--   - Surface: libswc/surface.c, one surface; Tree is a surface with its subsurfaces, of which
--     synchronisation is passed down (subsurface_is_synchronized asks upwards, see
--     Subsurface/Roles). Held, Replayed, Shown, Cached and Callbacks hold the proofs.
--   - Selection: libswc/data.c, sources and offers; Devices has libswc/data_device.c and
--     libswc/data_control.c, with the part of libswc/seat.c that answers the event; Live, Kept and
--     Told hold the proofs.
--
-- What the surroundings answer is a parameter: whether memory, the event source or a client object
-- can be had, what xkbcommon makes of a key, where the pointer is. Only the climbs from a surface
-- to its parents, in Subsurface/Roles, run on fuel, and give none where it does not reach the end;
-- every other loop is over a list or down a tree.
--
-- Not modelled: drawing and the images of the cursor, DRM and mode setting, input devices, the
-- keymap, Xwayland, drag and drop (which the code leaves out), what compositor.c draws and shows,
-- the interactions of window.c with the pointer, the roles of xdg-shell and the older shells, and
-- the requests of river-window-management-v1 that only set an attribute; titles and names in what
-- is advertised; and what a client destroys while it is in use elsewhere, such as the buffer of a
-- surface.
pub mod Prelude
pub mod Transaction
pub mod Window
pub mod Cohort
pub mod River
pub mod Bindings
pub mod Focus
pub mod Keyboard
pub mod LayerShell
pub mod Panel
pub mod Screen
pub mod Pointer
pub mod XdgShell
pub mod Stacking
pub mod OutputManagement
pub mod Subsurface
pub mod Surface
pub mod Selection
