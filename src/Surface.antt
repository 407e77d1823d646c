-- ===== src/Surface.antt =====
-- libswc/surface.c: what a client requests of a surface, and what a commit makes of it.
-- Buffers and frame callbacks are numbers. Of the view stands here which buffer it shows, and whether
-- it was asked to update; `released` are the buffers the client gets back and `done` the callbacks that
-- each frame answers, newest first.
pub mod Tree
mod Tests
use neoswc.Prelude.{
  ℕ, Bool, true, false, not, ◌&&◌, ◌||◌, Option, none, some, List, [], ◌∷◌, ◌++◌, ◌==◌,
  if◌then◌else◌,
}
use neoswc.Window.{Rectangle}

-- What pixman and wld do for the surfaces: the empty region, the one of all coordinates, a union, a
-- union with a rectangle, a region cut to a size, and the size of a buffer
pub record Regions (R : Type 0) : Type 0 where
  pub clear : R
  pub infinite : R
  pub union : R → R → R
  pub union_rect : R → Rectangle → R
  pub intersect_size : R → ℕ → ℕ → R
  pub width : ℕ → ℕ
  pub height : ℕ → ℕ

-- `struct surface_state`
pub record State (R : Type 0) : Type 0 where
  pub buffer : Option ℕ
  pub damage : R
  pub opaque_region : R
  pub input : R
  pub frame_callbacks : List ℕ

-- The bits of `pending.commit`
pub record Flags : Type 0 where
  pub attached : Bool
  pub damaged : Bool
  pub opaque_set : Bool
  pub input_set : Bool
  pub frame_asked : Bool

-- `render_hold`
pub record Hold : Type 0 where
  pub held : Bool
  pub attach : Bool
  pub update : Bool

-- What a commit asks of subsurface.c, at once and whether or not it is held: the visibility of its own
-- view, by whether the surface has a buffer, and the commit for its subsurfaces
pub data Call : Type 0 where
  update_visibility : Bool → Call
  parent_commit : Call

-- `struct surface`; `calls` is newest first.
pub record Surface (R : Type 0) : Type 0 where
  pub state : State R
  pub pending : State R
  pub commit : Flags
  pub has_view : Bool
  pub is_subsurface : Bool
  pub render_hold : Hold
  pub shown : Option ℕ
  pub updated : Bool
  pub released : List ℕ
  pub done : List (List ℕ)
  pub calls : List Call

abbrev pub no_flags : Flags
no_flags = record {
  attached = false;
  damaged = false;
  opaque_set = false;
  input_set = false;
  frame_asked = false;
}

abbrev pub no_hold : Hold
no_hold = record { held = false; attach = false; update = false }

abbrev same_buffer : ℕ → Option ℕ → Bool
same_buffer b none = false
same_buffer b (some c) = b == c

-- The release of the buffer that a commit replaces
abbrev release_replaced : Option ℕ → Option ℕ → List ℕ → List ℕ
release_replaced none new released = released
release_replaced (some b) new released = if same_buffer b new then released else b ∷ released

-- The attach of `surface_apply_pending`
unfoldable pub apply_attach : {R : Type 0} → Surface R → Surface R
apply_attach s =
    if s.commit.attached
    then record s {
      released = release_replaced s.state.buffer s.pending.buffer s.released;
      state = record (s.state) { buffer = s.pending.buffer };
    }
    else s

-- Its frame callbacks: the new ones come first.
unfoldable pub apply_frame : {R : Type 0} → Surface R → Surface R
apply_frame s =
    if s.commit.frame_asked
    then record s {
      state = record (s.state) {
        frame_callbacks = s.pending.frame_callbacks ++ s.state.frame_callbacks;
      };
      pending = record (s.pending) { frame_callbacks = [] };
    }
    else s

-- What it shows, or records for the end of a hold
unfoldable pub apply_view : {R : Type 0} → Surface R → Surface R
apply_view s =
    if not s.has_view
    then s
    else if s.render_hold.held
    then record s {
      render_hold = record (s.render_hold) {
        attach = s.commit.attached || s.render_hold.attach;
        update = true;
      };
    }
    else record s { shown = if s.commit.attached then s.state.buffer else s.shown; updated = true }

abbrev has_buffer : Option ℕ → Bool
has_buffer none = false
has_buffer (some b) = true

-- The calls of `subsurface_update_visibility` and `subsurface_parent_commit`
unfoldable pub apply_calls : {R : Type 0} → Surface R → Surface R
apply_calls s = record s {
  calls =
      parent_commit
      ∷ (if s.is_subsurface
          then update_visibility (has_buffer s.state.buffer) ∷ s.calls
          else s.calls);
}

-- `surface_hold_render` and `surface_release_render`, for the surface itself
unfoldable pub hold_own : {R : Type 0} → Surface R → Surface R
hold_own s = record s { render_hold = record (s.render_hold) { held = true } }

unfoldable pub release_own : {R : Type 0} → Surface R → Surface R
release_own s =
    let free : Surface _ = record s { render_hold = no_hold } in
    if not s.has_view then free else record free {
      shown = if s.render_hold.attach then s.state.buffer else s.shown;
      updated = s.render_hold.update || s.updated;
    }

-- The requests that a surface stores until the commit
pub data Request (R : Type 0) : Type 0 where
  attach : Option ℕ → Request R
  damage : Rectangle → Request R
  frame : ℕ → Request R
  set_opaque_region set_input_region : Option R → Request R

-- `handle_frame`
unfoldable pub handle_frame : {R : Type 0} → Surface R → Surface R
handle_frame s = record s {
  done = s.state.frame_callbacks ∷ s.done;
  state = record (s.state) { frame_callbacks = [] };
}

module _ {R : Type 0} (regions : Regions R) where
  abbrev trim_region : R → Option ℕ → R
  trim_region r none = regions.intersect_size r 0 0
  trim_region r (some b) = regions.intersect_size r (regions.width b) (regions.height b)

  -- The regions of `surface_apply_pending`
  unfoldable pub apply_regions : Surface R → Surface R
  apply_regions s =
      let damage =
        if s.commit.damaged
        then regions.union s.state.damage s.pending.damage
        else s.state.damage in
      let opaque = if s.commit.opaque_set then s.pending.opaque_region else s.state.opaque_region in
      record s {
        state = record (s.state) {
          damage = trim_region damage s.state.buffer;
          opaque_region = trim_region opaque s.state.buffer;
          input = if s.commit.input_set then s.pending.input else s.state.input;
        };
        pending = record (s.pending) {
          damage = if s.commit.damaged then regions.clear else s.pending.damage;
        };
      }

  -- `surface_apply_pending` for the surface itself, up to the calls of subsurface.c
  unfoldable pub apply_state : Surface R → Surface R
  apply_state s = record (apply_view (apply_frame (apply_regions (apply_attach s)))) {
    commit = no_flags;
  }

  -- `surface_apply_pending` for the surface itself; the loop over its subsurfaces is with the tree.
  unfoldable pub apply_own : Surface R → Surface R
  apply_own s = apply_calls (apply_state s)

  -- The requests
  unfoldable pub request_own : Request R → Surface R → Surface R
  request_own (attach buffer) s = record s {
    commit = record (s.commit) { attached = true };
    pending = record (s.pending) { buffer = buffer };
  }
  request_own (damage rect) s = record s {
    commit = record (s.commit) { damaged = true };
    pending = record (s.pending) { damage = regions.union_rect s.pending.damage rect };
  }
  request_own (frame callback) s = record s {
    commit = record (s.commit) { frame_asked = true };
    pending = record (s.pending) { frame_callbacks = s.pending.frame_callbacks ++ (callback ∷ []) };
  }
  request_own (set_opaque_region none) s = record s {
    commit = record (s.commit) { opaque_set = true };
    pending = record (s.pending) { opaque_region = regions.clear };
  }
  request_own (set_opaque_region (some r)) s = record s {
    commit = record (s.commit) { opaque_set = true };
    pending = record (s.pending) { opaque_region = r };
  }
  request_own (set_input_region none) s = record s {
    commit = record (s.commit) { input_set = true };
    pending = record (s.pending) { input = regions.infinite };
  }
  request_own (set_input_region (some r)) s = record s {
    commit = record (s.commit) { input_set = true };
    pending = record (s.pending) { input = r };
  }
