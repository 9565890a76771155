-- ===== src/Terminal/Recording.antt =====
-- What packages/virtual_terminal/src/recorder.rs reads from a file that a recorder wrote, also where a
-- crash has cut the file.
use crabcity.Shared.{
  List, Option-cases, [], ap, append-nil, append_assoc, arith, inl, inr, length, length-append,
  none, refl, some, suc, sym, zero, ℕ, ◌%◌, ◌++◌, ◌+◌, ◌-◌, ◌<◌, ◌∙◌, ◌∷◌, ◌≡◌, ◌≢◌, ◌≤◌, ◌⊎◌,
}
use crabcity.Terminal.Emulator.{Bytes}
use crabcity.Terminal.Recorder.{
  Cbor, RecorderCall, VtEvent, VtRecorder, VtRecordingHeader, call_input, call_output, call_resize,
  input_event, new_recorder, output_event, parse_events, parse_recording, record_call, record_calls,
  record_input, record_output, record_resize, resize_event,
}

-- What RFC 8949 promises of encoded values, one behind the other: each is read back, and no part of
-- one is a value.
pub record IsCbor (c : Cbor) : Type 0 where
  pub header_read :
      (h : VtRecordingHeader) (rest : Bytes)
      → c.read_header (c.write_header h ++ rest) ≡ some (h, rest)
  pub one_read : (e : VtEvent) (rest : Bytes) → c.read_one (c.write_one e ++ rest) ≡ some (e, rest)
  pub cut_unread :
      (e : VtEvent) (cut lost : Bytes)
      → c.write_one e ≡ cut ++ lost
      → lost ≢ []
      → c.read_one cut ≡ none
  pub end_unread : c.read_one [] ≡ none
  pub one_written : (e : VtEvent) → 0 < length (c.write_one e)
  pub shorter :
      (bytes : Bytes) (e : VtEvent) (rest : Bytes)
      → c.read_one bytes ≡ some (e, rest)
      → length rest < length bytes

-- Where one of two beginnings of the same bytes ends: behind the other, or within it.
prefixes :
    (xs ys zs ws : Bytes)
    → xs ++ ys ≡ zs ++ ws
    → ((more : Bytes) × (xs ≡ zs ++ more) × (more ++ ys ≡ ws))
      ⊎ ((lost : Bytes) × (zs ≡ xs ++ lost) × (lost ≢ []))
prefixes xs ys [] ws e = inl (xs, refl, e)
prefixes [] ys (z ∷ zs) ws e = inr (z ∷ zs, refl, λ h. cc)
prefixes (x ∷ xs) ys (z ∷ zs) ws e = elim (prefixes xs ys zs ws (cc)) [
  | inl (more, p, q) ↦ inl (more, cc, q)
  | inr (lost, p, q) ↦ inr (lost, cc, q)
]

nonempty : (bytes : Bytes) → bytes ≢ [] → 0 < length bytes
nonempty [] ne = absurd (ne refl)
nonempty (b ∷ bytes) ne = omega arith

append-cancel : (xs ys zs : Bytes) → xs ++ ys ≡ xs ++ zs → ys ≡ zs
append-cancel [] ys zs e = e
append-cancel (x ∷ xs) ys zs e = append-cancel xs ys zs (cc)

-- The event of a call, for a recorder that was made at `begun`.
abbrev pub event_of : ℕ → ℕ → RecorderCall → VtEvent
event_of begun now (call_output bytes) = output_event ((now - begun) % 0x1_0000_0000) bytes
event_of begun now (call_input bytes) = input_event ((now - begun) % 0x1_0000_0000) bytes
event_of begun now (call_resize rows cols) = resize_event ((now - begun) % 0x1_0000_0000) rows cols

abbrev pub events_of : ℕ → List (ℕ × RecorderCall) → List VtEvent
events_of begun [] = []
events_of begun ((now, done) ∷ made) = event_of begun now done ∷ events_of begun made

module _ (c : Cbor) (laws : IsCbor c) where
  abbrev pub encoded : List VtEvent → Bytes
  encoded [] = []
  encoded (e ∷ events) = c.write_one e ++ encoded events

  -- The loop ends: with fuel for each byte it gives events, whatever the bytes are.
  pub parse_events-ends :
      (fuel : ℕ) (bytes : Bytes)
      → length bytes < fuel
      → (events : List VtEvent) × (parse_events c fuel bytes ≡ some events)
  unfolding parse_events
  parse_events-ends zero bytes h = absurd (omega (arith, h))
  parse_events-ends (suc fuel) bytes h = elim (Option-cases (c.read_one bytes)) [
    | inl unread ↦ ([], rw (unread, parse_events) refl)
    | inr ((e, rest), found) ↦
        let onward =
          parse_events-ends fuel rest (omega (arith, h, laws.shorter bytes e rest found)) in
        (e ∷ onward.0, rw (found, parse_events, onward.1) refl)
  ]

  -- The events whose bytes are all there, and those that a cut has taken.
  pub record Kept (events : List VtEvent) (there : Bytes) (kept : List VtEvent) : Type 0 where
    pub dropped : List VtEvent
    pub split : events ≡ kept ++ dropped
    pub inside : length (encoded kept) ≤ length there
    pub whole :
        (e : VtEvent) (more : List VtEvent)
        → dropped ≡ e ∷ more
        → length there < length (encoded kept) + length (c.write_one e)

  parse_events-Kept :
      (fuel : ℕ) (events : List VtEvent) (there lost : Bytes)
      → length there < fuel
      → there ++ lost ≡ encoded events
      → (kept : List VtEvent) × (parse_events c fuel there ≡ some kept) × Kept events there kept
  unfolding parse_events
  parse_events-Kept zero events there lost h e = absurd (omega (arith, h))
  parse_events-Kept (suc fuel) [] [] lost h e = (
    [],
    rw (laws.end_unread, parse_events) refl,
    record { dropped = []; split = refl; inside = omega arith; whole = λ e more none_left. cc },
  )
  parse_events-Kept (suc fuel) [] (b ∷ there) lost h e = cc
  parse_events-Kept (suc fuel) (e ∷ events) there lost h eq =
      elim (prefixes there lost (c.write_one e) (encoded events) eq) [
        | inl (more, begins, goes_on) ↦
            let size : length more < fuel = omega (
              arith,
              h,
              laws.one_written e,
              ap length begins,
              length-append (c.write_one e) more,
            ) in
            let (kept, parsed, k) = parse_events-Kept fuel events more lost size goes_on in
            let read : c.read_one there ≡ some (e, more) = rw begins (laws.one_read e more) in
            (
              e ∷ kept,
              rw (read, parse_events, parsed) refl,
              record {
                dropped = k.dropped;
                split = ap (◌∷◌ e) k.split;
                inside = omega (
                  arith,
                  k.inside,
                  ap length begins,
                  length-append (c.write_one e) more,
                  length-append (c.write_one e) (encoded kept),
                );
                whole = λ e' later is_next. omega (
                  arith,
                  k.whole e' later is_next,
                  ap length begins,
                  length-append (c.write_one e) more,
                  length-append (c.write_one e) (encoded kept),
                );
              },
            )
        | inr (gone, cut, some_gone) ↦ (
          [],
          rw (laws.cut_unread e there gone cut some_gone, parse_events) refl,
          record {
            dropped = e ∷ events;
            split = refl;
            inside = omega arith;
            whole = λ e' later is_next.
                let same : e ≡ e' = cc in
                rw (sym same)
                  (omega (arith, ap length cut, length-append there gone, nonempty gone some_gone));
          },
        )
      ]

  written_after :
      (made : List (ℕ × RecorderCall)) (r : VtRecorder)
      → (record_calls c made r).written ≡ r.written ++ encoded (events_of r.begun made)
  unfolding record_calls record_call record_output record_input record_resize
  written_after [] r = sym (append-nil r.written)
  written_after ((now, call_output bytes) ∷ made) r =
      written_after made (record_output c now bytes r)
      ∙ append_assoc r.written (c.write_one (event_of r.begun now (call_output bytes)))
          (encoded (events_of r.begun made))
  written_after ((now, call_input bytes) ∷ made) r =
      written_after made (record_input c now bytes r)
      ∙ append_assoc r.written (c.write_one (event_of r.begun now (call_input bytes)))
          (encoded (events_of r.begun made))
  written_after ((now, call_resize rows cols) ∷ made) r =
      written_after made (record_resize c now rows cols r)
      ∙ append_assoc r.written (c.write_one (event_of r.begun now (call_resize rows cols)))
          (encoded (events_of r.begun made))

  -- A file that holds the header and any part of the bytes behind it, as after a crash, is read, and
  -- gives the header and the events of the first calls: all whose bytes are there as a whole, and no
  -- others.
  pub parse_recording-record_calls :
      (now : ℕ) (h : VtRecordingHeader) (made : List (ℕ × RecorderCall)) (there lost : Bytes)
      → (record_calls c made (new_recorder c now h.rows h.cols h.scrollback_lines)).written
        ≡ c.write_header h ++ (there ++ lost)
      → (kept : List VtEvent) × (parse_recording c (c.write_header h ++ there)
          ≡ some (record { header = h; events = kept }))
        × Kept (events_of now made) there kept
  unfolding parse_recording new_recorder
  parse_recording-record_calls now h made there lost e =
      let start = new_recorder c now h.rows h.cols h.scrollback_lines in
      let all : there ++ lost ≡ encoded (events_of now made) =
        append-cancel (c.write_header h) (there ++ lost) (encoded (events_of now made))
          (sym e ∙ written_after made start) in
      let (kept, parsed, k) =
        parse_events-Kept (suc (length there)) (events_of now made) there lost (omega arith) all in
      (kept, rw (laws.header_read h there, parse_recording, parsed) refl, k)

  length-encoded :
      (xs ys : List VtEvent)
      → length (encoded (xs ++ ys)) ≡ length (encoded xs) + length (encoded ys)
  length-encoded [] ys = omega arith
  length-encoded (x ∷ xs) ys = omega (
    arith,
    length-encoded xs ys,
    length-append (c.write_one x) (encoded (xs ++ ys)),
    length-append (c.write_one x) (encoded xs),
  )

  -- Nothing is dropped of a file that is whole.
  Kept-whole : (events kept : List VtEvent) → Kept events (encoded events) kept → kept ≡ events
  Kept-whole events kept k = go k.dropped k.split k.whole
    where
      go :
          (dropped : List VtEvent)
          → events ≡ kept ++ dropped
          → ((e : VtEvent) (more : List VtEvent)
              → dropped ≡ e ∷ more
              → length (encoded events) < length (encoded kept) + length (c.write_one e))
          → kept ≡ events
      go [] split whole = sym (split ∙ append-nil kept)
      go (e ∷ more) split whole = absurd (
          omega (
            arith,
            whole e more refl,
            length-encoded kept (e ∷ more),
            ap (λ (x : List VtEvent). length (encoded x)) split,
            length-append (c.write_one e) (encoded more),
          ))

  pub parse_recording-whole :
      (now : ℕ) (h : VtRecordingHeader) (made : List (ℕ × RecorderCall))
      → parse_recording c
          (record_calls c made (new_recorder c now h.rows h.cols h.scrollback_lines)).written
        ≡ some (record { header = h; events = events_of now made })
  unfolding new_recorder
  parse_recording-whole now h made =
      let start = new_recorder c now h.rows h.cols h.scrollback_lines in
      let bytes = encoded (events_of now made) in
      let written = written_after made start in
      let (kept, parsed, k) =
        parse_recording-record_calls now h made bytes []
          (written ∙ ap (λ x. c.write_header h ++ x) (sym (append-nil bytes))) in
      rw (written, parsed, Kept-whole (events_of now made) kept k) refl
