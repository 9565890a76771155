-- ===== src/Terminal/Examples.antt =====
-- The theorems on the virtual terminal (packages/virtual_terminal/src/lib.rs) over an emulator that
-- has two lines of scrollback: it shows that the laws of an emulator can hold.
use crabcity.Shared.{
  List, Option, Text, [], ap, arith, codes, false, if◌then◌else◌, insert, ltb, map, min, none, refl,
  remove, some, suc, text_dec, true, zero, ℕ, ℕ_discrete, ◌++◌, ◌+◌, ◌-◌, ◌<◌, ◌∷◌, ◌≡◌, ◌≤◌,
}
use crabcity.Terminal.Codec.{tagged, tagged-IsCbor, write_bytes}
use crabcity.Terminal.Emulator.{Bytes, Cell, IsEmulator, Vt100, default, idx}
use crabcity.Terminal.History.{history, replay-history}
use crabcity.Terminal.Negotiation.{IsNegotiated, steps_new-IsNegotiated}
use crabcity.Terminal.Played.{
  InTurn, IsShown, LiveEvent, happens, live_calls, live_run, replay_recording-live_run,
  resize_commanded, typed_in,
}
use crabcity.Terminal.Recorder.{
  RecorderCall, VtEvent, VtRecording, VtRecordingHeader, call_input, call_output, new_recorder,
  parse_recording, record_call, record_calls, record_input, record_output, replay_recording,
}
use crabcity.Terminal.Recording.{Kept, events_of, parse_recording-record_calls}
use crabcity.Terminal.Scrollback.{append_scrollback_flush, emit_row, replay}
use crabcity.Terminal.Sgr.{CellInfo, attrs_of, format_cells, info_of, plain}
use crabcity.Terminal.Styles.{show, show-format_cells}
use crabcity.Terminal.Viewport.{
  Viewports, calculate_effective_dims, min_dims, min_of, terminal, web,
}
use crabcity.Terminal.Virtual.{
  Event, VirtualTerminal, activates, apply_dims, compact, new_vt, outputs, process_output,
  recalculate_effective_dims, remove_client, removes, render_visible_screen, set_active, step,
  steps, update_viewport, updates,
}

-- How many lines the view is shifted.
data Shift : Type 0 where
  live one two : Shift

record Screen : Type 0 where
  rows : ℕ
  cols : ℕ
  shift : Shift

lines_of : Shift → ℕ
lines_of live = 0
lines_of one = 1
lines_of two = 2

shift_to : ℕ → Shift
shift_to zero = live
shift_to (suc zero) = one
shift_to (suc (suc n)) = two

letter : ℕ → Cell
letter n = record {
  contents = (96 + n) ∷ [];
  is_wide_continuation = false;
  fgcolor = default;
  bgcolor = idx 2;
  bold = true;
  italic = false;
  underline = false;
  inverse = false;
}

-- A row above the live screen shows the number of its line.
cell_at : Screen → ℕ → ℕ → Option Cell
unfolding lines_of letter
cell_at p row col =
    if ltb row (lines_of p.shift) then some (letter (lines_of p.shift - row)) else none

abbrev small_vt : Vt100
small_vt = record {
  Parser = Screen;
  new_parser = λ rows cols scrollback_lines. record { rows = rows; cols = cols; shift = live };
  process_bytes = λ p bytes. p;
  size = λ p. (p.rows, p.cols);
  cursor_position = λ p. (0, 0);
  alternate_screen = λ p. false;
  contents_formatted = λ p. [];
  set_scrollback = λ p n. record p { shift = shift_to n };
  scrollback = λ p. lines_of p.shift;
  cell = cell_at;
}

clamped : (n : ℕ) → lines_of (shift_to n) ≡ min n 2
unfolding lines_of shift_to
clamped zero = refl
clamped (suc zero) = refl
clamped (suc (suc n)) = omega arith

shift_same : (s : Shift) → shift_to (lines_of s) ≡ s
unfolding lines_of shift_to
shift_same live = refl
shift_same one = refl
shift_same two = refl

row_shown :
    (p : Screen) (n row col : ℕ)
    → row < n
    → n ≤ 2
    → cell_at (record p { shift = shift_to n }) row col
      ≡ cell_at (record p { shift = shift_to (n - row) }) 0 col
unfolding cell_at
row_shown p n row col a b = ground (arith, clamped n, clamped (n - row))

small_vt-IsEmulator : IsEmulator small_vt
small_vt-IsEmulator = record {
  size_new = λ rows cols n. refl;
  size_process = λ p b. refl;
  size_scroll = λ p n. refl;
  depth = λ p. 2;
  depth_usize = λ p. omega arith;
  scroll_clamped = λ p n. clamped n;
  scroll_twice = λ p m n. refl;
  scroll_same = λ p. ap (λ (s : Shift). record p { shift = s }) (shift_same p.shift);
  scroll_rows = λ p n row col a b c. row_shown p n row col a b;
}

abbrev two_clients : Viewports
two_clients =
    (codes "a", record { rows = 24; cols = 100; client_type = web; is_active = true })
    ∷ (codes "b", record { rows = 50; cols = 80; client_type = terminal; is_active = true })
    ∷ []

abbrev events : List (Event small_vt)
events =
    updates (codes "a") 24 100 web
    ∷ outputs (codes "hello")
    ∷ updates (codes "b") 50 80 terminal
    ∷ activates (codes "a") false
    ∷ removes (codes "b")
    ∷ []

steps_new-IsNegotiated_example :
    IsNegotiated small_vt small_vt-IsEmulator events
      (steps small_vt events (new_vt small_vt 24 80 4 2))
steps_new-IsNegotiated_example =
    steps_new-IsNegotiated small_vt small_vt-IsEmulator 24 80 4 2 events

abbrev bold_then_plain : List CellInfo
bold_then_plain =
    (info_of 0 (letter 1))
    ∷ (record {
      col = 1;
      contents = codes "x";
      fg = idx 1;
      bg = default;
      bold = false;
      italic = true;
      underline = false;
      inverse = false;
    })
    ∷ []

show-format_cells_example :
    show plain (format_cells plain bold_then_plain)
    ≡ map (λ c. (attrs_of c, c.contents)) bold_then_plain
show-format_cells_example = show-format_cells plain bold_then_plain

abbrev ascii : Text → Bytes
ascii t = t

abbrev screen : Screen
screen = record { rows = 1; cols = 3; shift = live }

abbrev small_terminal : VirtualTerminal small_vt
small_terminal = record {
  parser = screen;
  client_viewports = two_clients;
  effective_dims = (1, 3);
  keyframe = none;
  deltas = [];
  max_delta_bytes = 10;
  scrollback_capacity = 2;
}

replay-history_example :
    replay small_vt ascii 5 small_terminal
    ≡ some (
      small_terminal,
      history small_vt small_vt-IsEmulator ascii 3 2 screen
          ++ append_scrollback_flush small_vt 2 5
          ++ render_visible_screen small_vt screen,
    )
unfolding lines_of small_vt-IsEmulator emit_row
replay-history_example =
    replay-history small_vt small_vt-IsEmulator ascii 5 small_terminal refl (omega arith)

abbrev tape_header : VtRecordingHeader
tape_header = record { rows = 2; cols = 3; scrollback_lines = 2 }

abbrev two_calls : List (ℕ × RecorderCall)
two_calls = (5, call_output (65 ∷ [])) ∷ (9, call_input (66 ∷ [])) ∷ []

-- The second of two events is cut off in the middle.
abbrev first_bytes : Bytes
first_bytes = 0 ∷ 5 ∷ 1 ∷ 65 ∷ 0 ∷ 1 ∷ 9 ∷ 1 ∷ []

parse_recording-record_calls_example :
    (kept : List VtEvent) × (parse_recording tagged (tagged.write_header tape_header ++ first_bytes)
      ≡ some (record { header = tape_header; events = kept }))
    × Kept tagged tagged-IsCbor (events_of 0 two_calls) first_bytes kept
unfolding new_recorder record_calls record_call record_output record_input write_bytes tagged
parse_recording-record_calls_example =
    parse_recording-record_calls tagged tagged-IsCbor 0 tape_header two_calls first_bytes
      (66 ∷ 0 ∷ []) refl

abbrev recorded_day : List (ℕ × LiveEvent small_vt)
recorded_day =
    (1, happens (outputs (65 ∷ [])))
    ∷ (2, happens (updates (codes "a") 4 5 web))
    ∷ (3, typed_in (66 ∷ []))
    ∷ (4, resize_commanded 4 5)
    ∷ (5, happens (outputs (67 ∷ [])))
    ∷ (6, happens (removes (codes "a")))
    ∷ []

abbrev tape_start : VirtualTerminal small_vt
tape_start = new_vt small_vt 2 3 10 2

recorded_day-InTurn : InTurn small_vt [] recorded_day tape_start
unfolding update_viewport set_active remove_client recalculate_effective_dims apply_dims
    calculate_effective_dims min_dims min_of insert remove new_vt step process_output compact
    text_dec ℕ_discrete
recorded_day-InTurn = (refl, (refl, (refl, refl)))

replay_recording-live_run_example :
    (r : VtRecording) × (parse_recording tagged
        (record_calls tagged
          (live_calls small_vt recorded_day)
          (new_recorder tagged 0 2 3 2)).written
      ≡ some r)
    × IsShown small_vt (live_run small_vt recorded_day tape_start) (replay_recording small_vt 10 r)
replay_recording-live_run_example =
    replay_recording-live_run small_vt tagged tagged-IsCbor 0 10 tape_header recorded_day
      recorded_day-InTurn
