-- ===== src/Terminal/Virtual.antt =====
-- The virtual terminal of packages/virtual_terminal/src/lib.rs: output, compaction, resizing and
-- the negotiation of dimensions.
use crabcity.Shared.{
  Bool, List, Option, Text, [], codes, decimal, if◌then◌else◌, insert, length, lookup, ltb, none,
  remove, some, true, ℕ, ◌&&◌, ◌++◌, ◌+◌, ◌==◌, ◌∷◌,
}
use crabcity.Terminal.Emulator.{Bytes, Vt100}
use crabcity.Terminal.Viewport.{ClientType, Dims, Viewports, calculate_effective_dims}

pub record VirtualTerminal (v : Vt100) : Type 0 where
  pub parser : v.Parser
  pub client_viewports : Viewports
  pub effective_dims : Dims
  pub keyframe : Option Bytes
  pub deltas : Bytes
  pub max_delta_bytes : ℕ
  pub scrollback_capacity : ℕ

abbrev esc : Bytes
esc = 27 ∷ []

-- "\x1b[{row};{col}H"
abbrev pub cursor_to : ℕ → ℕ → Bytes
cursor_to row col = esc ++ codes "[" ++ decimal row ++ codes ";" ++ decimal col ++ codes "H"

-- "\x1b[H\x1b[2J\x1b[0m"
abbrev pub clear_screen : Bytes
clear_screen = esc ++ codes "[H" ++ esc ++ codes "[2J" ++ esc ++ codes "[0m"

module _ (v : Vt100) where
  open v use {
    Parser, new_parser, process_bytes, size, cursor_position, contents_formatted, scrollback,
    alternate_screen,
  }

  -- `render_visible_screen`, which `compact` repeats.
  unfoldable pub render_visible_screen : Parser → Bytes
  render_visible_screen p =
      clear_screen
      ++ contents_formatted p
      ++ cursor_to ((cursor_position p).0 + 1) ((cursor_position p).1 + 1)

  unfoldable pub new_vt : (rows cols max_delta_bytes scrollback_lines : ℕ) → VirtualTerminal v
  new_vt rows cols max_delta_bytes scrollback_lines = record {
    parser = new_parser rows cols scrollback_lines;
    client_viewports = [];
    effective_dims = (rows, cols);
    keyframe = none;
    deltas = [];
    max_delta_bytes = max_delta_bytes;
    scrollback_capacity = scrollback_lines;
  }

  unfoldable pub compact : VirtualTerminal v → VirtualTerminal v
  unfolding render_visible_screen
  compact t = record t { keyframe = some (render_visible_screen t.parser); deltas = [] }

  unfoldable pub process_output : Bytes → VirtualTerminal v → VirtualTerminal v
  unfolding compact
  process_output bytes t =
      let fed = record t { parser = process_bytes t.parser bytes; deltas = t.deltas ++ bytes } in
      if ltb t.max_delta_bytes (length fed.deltas) then compact fed else fed

  unfoldable pub resize : ℕ → ℕ → VirtualTerminal v → VirtualTerminal v
  resize rows cols t =
      let content = contents_formatted t.parser in
      let (row, col) = cursor_position t.parser in
      let fresh = process_bytes (new_parser rows cols t.scrollback_capacity) content in
      record t { parser = process_bytes fresh (cursor_to (row + 1) (col + 1)) }

  unfoldable pub apply_dims : Option Dims → VirtualTerminal v → VirtualTerminal v × Option Dims
  unfolding resize
  apply_dims none t = (t, none)
  apply_dims (some (rows, cols)) t =
      if rows == t.effective_dims.0 && cols == t.effective_dims.1
      then (t, none)
      else (let resized = resize rows cols (record t { effective_dims = (rows, cols) }) in
          (record resized { keyframe = none; deltas = [] }, some (rows, cols)))

  unfoldable pub recalculate_effective_dims : VirtualTerminal v → VirtualTerminal v × Option Dims
  unfolding apply_dims
  recalculate_effective_dims t = apply_dims (calculate_effective_dims t.client_viewports) t

  unfoldable pub update_viewport :
      Text → ℕ → ℕ → ClientType → VirtualTerminal v → VirtualTerminal v × Option Dims
  unfolding recalculate_effective_dims
  update_viewport connection_id rows cols client_type t = recalculate_effective_dims (record t {
    client_viewports =
        insert connection_id
          (record { rows = rows; cols = cols; client_type = client_type; is_active = true })
          t.client_viewports;
  })

  -- The viewports with one client's visibility set, if the client is known.
  unfoldable pub activate : Text → Bool → Viewports → Viewports
  activate connection_id active viewports = elim (lookup connection_id viewports) [
    | none ↦ viewports
    | some viewport ↦ insert connection_id (record viewport { is_active = active }) viewports
  ]

  unfoldable pub set_active : Text → Bool → VirtualTerminal v → VirtualTerminal v × Option Dims
  unfolding recalculate_effective_dims activate
  set_active connection_id active t =
      recalculate_effective_dims
        (record t { client_viewports = activate connection_id active t.client_viewports })

  unfoldable pub remove_client : Text → VirtualTerminal v → VirtualTerminal v × Option Dims
  unfolding recalculate_effective_dims
  remove_client connection_id t =
      recalculate_effective_dims
        (record t { client_viewports = remove connection_id t.client_viewports })

  -- What a client or the process behind the terminal does to it.
  pub data Event : Type 0 where
    outputs : Bytes → Event
    updates : (connection_id : Text) (rows cols : ℕ) (client_type : ClientType) → Event
    activates : (connection_id : Text) (active : Bool) → Event
    removes : (connection_id : Text) → Event

  unfoldable pub step : Event → VirtualTerminal v → VirtualTerminal v
  unfolding process_output update_viewport set_active remove_client
  step (outputs bytes) t = process_output bytes t
  step (updates c rows cols k) t = (update_viewport c rows cols k t).0
  step (activates c active) t = (set_active c active t).0
  step (removes c) t = (remove_client c t).0

  unfoldable pub steps : List Event → VirtualTerminal v → VirtualTerminal v
  unfolding step
  steps [] t = t
  steps (e ∷ es) t = steps es (step e t)
