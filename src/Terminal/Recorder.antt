-- ===== src/Terminal/Recorder.antt =====
-- The recorder of packages/virtual_terminal/src/recorder.rs: the file that it writes, the parser of
-- such a file, and the terminal that a recording is played on. The CBOR codec (crate ciborium) is a
-- parameter.
use crabcity.Shared.{List, Option, [], length, none, some, suc, zero, ℕ, ◌%◌, ◌++◌, ◌-◌, ◌∷◌}
use crabcity.Terminal.Emulator.{Bytes, Vt100}
use crabcity.Terminal.Virtual.{VirtualTerminal, new_vt, process_output, resize}

pub record VtRecordingHeader : Type 0 where
  pub rows : ℕ
  pub cols : ℕ
  pub scrollback_lines : ℕ

pub data VtEvent : Type 0 where
  output_event : (timestamp_us : ℕ) (bytes : Bytes) → VtEvent
  input_event : (timestamp_us : ℕ) (bytes : Bytes) → VtEvent
  resize_event : (timestamp_us rows cols : ℕ) → VtEvent

-- `ciborium::into_writer` and `from_reader`, which leaves the bytes behind the value. `none` stands for
-- every error.
pub record Cbor : Type 0 where
  pub write_header : VtRecordingHeader → Bytes
  pub read_header : Bytes → Option (VtRecordingHeader × Bytes)
  pub write_one : VtEvent → Bytes
  pub read_one : Bytes → Option (VtEvent × Bytes)

-- `VtRecorder`: what its writer has got, and when it was made, in microseconds.
pub record VtRecorder : Type 0 where
  pub written : Bytes
  pub begun : ℕ

-- A call of the recorder.
pub data RecorderCall : Type 0 where
  call_output : (bytes : Bytes) → RecorderCall
  call_input : (bytes : Bytes) → RecorderCall
  call_resize : (rows cols : ℕ) → RecorderCall

pub record VtRecording : Type 0 where
  pub header : VtRecordingHeader
  pub events : List VtEvent

abbrev pub more_events : VtEvent → Option (List VtEvent) → Option (List VtEvent)
more_events e none = none
more_events e (some events) = some (e ∷ events)

abbrev pub recording_of : VtRecordingHeader → Option (List VtEvent) → Option VtRecording
recording_of header none = none
recording_of header (some events) = some (record { header = header; events = events })

module _ (c : Cbor) where
  unfoldable pub new_recorder : (now rows cols scrollback_lines : ℕ) → VtRecorder
  new_recorder now rows cols scrollback_lines = record {
    written =
        c.write_header (record { rows = rows; cols = cols; scrollback_lines = scrollback_lines });
    begun = now;
  }

  -- The microseconds as a `u32`.
  abbrev pub elapsed_us : ℕ → VtRecorder → ℕ
  elapsed_us now r = (now - r.begun) % 0x1_0000_0000

  abbrev pub write_event : VtEvent → VtRecorder → VtRecorder
  write_event e r = record r { written = r.written ++ c.write_one e }

  unfoldable pub record_output : ℕ → Bytes → VtRecorder → VtRecorder
  record_output now bytes r = write_event (output_event (elapsed_us now r) bytes) r

  unfoldable pub record_input : ℕ → Bytes → VtRecorder → VtRecorder
  record_input now bytes r = write_event (input_event (elapsed_us now r) bytes) r

  unfoldable pub record_resize : ℕ → ℕ → ℕ → VtRecorder → VtRecorder
  record_resize now rows cols r = write_event (resize_event (elapsed_us now r) rows cols) r

  unfoldable pub record_call : ℕ → RecorderCall → VtRecorder → VtRecorder
  unfolding record_output record_input record_resize
  record_call now (call_output bytes) r = record_output now bytes r
  record_call now (call_input bytes) r = record_input now bytes r
  record_call now (call_resize rows cols) r = record_resize now rows cols r

  -- The calls one behind the other, each with its time.
  unfoldable pub record_calls : List (ℕ × RecorderCall) → VtRecorder → VtRecorder
  unfolding record_call
  record_calls [] r = r
  record_calls ((now, done) ∷ made) r = record_calls made (record_call now done r)

  -- The loop of `parse`: every error ends it. `none` where it has no fuel left.
  unfoldable pub parse_events : ℕ → Bytes → Option (List VtEvent)
  parse_events zero bytes = none
  parse_events (suc fuel) bytes = elim (c.read_one bytes) [
    | none ↦ some []
    | some (e, rest) ↦ more_events e (parse_events fuel rest)
  ]

  unfoldable pub parse_recording : Bytes → Option VtRecording
  unfolding parse_events
  parse_recording bytes = elim (c.read_header bytes) [
    | none ↦ none
    | some (header, rest) ↦ recording_of header (parse_events (suc (length rest)) rest)
  ]

module _ (v : Vt100) where
  unfoldable pub play : VtEvent → VirtualTerminal v → VirtualTerminal v
  unfolding process_output resize
  play (output_event t bytes) vt = process_output v bytes vt
  play (input_event t bytes) vt = vt
  play (resize_event t rows cols) vt = resize v rows cols vt

  unfoldable pub play_all : List VtEvent → VirtualTerminal v → VirtualTerminal v
  unfolding play
  play_all [] vt = vt
  play_all (e ∷ events) vt = play_all events (play e vt)

  unfoldable pub replay_recording : ℕ → VtRecording → VirtualTerminal v
  unfolding play_all new_vt
  replay_recording max_delta_bytes r =
      play_all r.events
        (new_vt v r.header.rows r.header.cols max_delta_bytes r.header.scrollback_lines)
