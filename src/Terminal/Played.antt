-- ===== src/Terminal/Played.antt =====
-- A recording of packages/virtual_terminal/src/recorder.rs played again, against the virtual terminal
-- of packages/virtual_terminal/src/lib.rs that it was made from. The calls of the recorder stand where
-- packages/crab_city/src/instance_actor.rs has them: output and input before they are processed, and a
-- resize at a command of its own, which the caller sends when the terminal has already been resized.
use crabcity.Shared.{
  Bool-cases, List, Option, [], arith, inl, inr, insert, none, refl, remove, some, subst, sym, true,
  ℕ, ◌&&◌, ◌++◌, ◌==◌, ◌∷◌, ◌≡◌,
}
use crabcity.Terminal.Emulator.{Bytes, Vt100}
use crabcity.Terminal.Recorder.{
  Cbor, RecorderCall, VtRecording, VtRecordingHeader, call_input, call_output, call_resize,
  new_recorder, parse_recording, play, play_all, record_calls, replay_recording,
}
use crabcity.Terminal.Recording.{IsCbor, events_of, parse_recording-whole}
use crabcity.Terminal.Viewport.{ClientViewport, Dims, Viewports, calculate_effective_dims}
use crabcity.Terminal.Virtual.{
  Event, VirtualTerminal, activate, activates, apply_dims, compact, new_vt, outputs, process_output,
  recalculate_effective_dims, remove_client, removes, resize, set_active, step, update_viewport,
  updates,
}

module _ (v : Vt100) where
  -- What happens to a terminal that is recorded. A change of the viewports resizes the terminal, and
  -- the command to resize what runs in it comes later.
  pub data LiveEvent : Type 0 where
    happens : (e : Event v) → LiveEvent
    typed_in : (bytes : Bytes) → LiveEvent
    resize_commanded : (rows cols : ℕ) → LiveEvent

  -- The calls that an event makes.
  abbrev pub calls_at : ℕ → LiveEvent → List (ℕ × RecorderCall)
  calls_at now (happens (outputs bytes)) = (now, call_output bytes) ∷ []
  calls_at now (happens (updates id rows cols k)) = []
  calls_at now (happens (activates id active)) = []
  calls_at now (happens (removes id)) = []
  calls_at now (typed_in bytes) = (now, call_input bytes) ∷ []
  calls_at now (resize_commanded rows cols) = (now, call_resize rows cols) ∷ []

  abbrev pub live_step : LiveEvent → VirtualTerminal v → VirtualTerminal v
  live_step (happens e) t = step v e t
  live_step (typed_in bytes) t = t
  live_step (resize_commanded rows cols) t = t

  abbrev pub live_run : List (ℕ × LiveEvent) → VirtualTerminal v → VirtualTerminal v
  live_run [] t = t
  live_run ((now, e) ∷ events) t = live_run events (live_step e t)

  abbrev pub live_calls : List (ℕ × LiveEvent) → List (ℕ × RecorderCall)
  live_calls [] = []
  live_calls ((now, e) ∷ events) = calls_at now e ++ live_calls events

  abbrev change_list : Option Dims → List Dims
  change_list none = []
  change_list (some d) = d ∷ []

  -- The change of the dimensions that an event reports to its caller.
  abbrev pub changes : Event v → VirtualTerminal v → List Dims
  changes (outputs bytes) t = []
  changes (updates id rows cols k) t = change_list (update_viewport v id rows cols k t).1
  changes (activates id active) t = change_list (set_active v id active t).1
  changes (removes id) t = change_list (remove_client v id t).1

  -- The commands to resize come in the order of the changes, one for each, and no output comes while a
  -- command is outstanding.
  abbrev pub InTurn : List Dims → List (ℕ × LiveEvent) → VirtualTerminal v → Type 0
  InTurn due [] t = due ≡ []
  InTurn due ((now, happens (outputs bytes)) ∷ events) t =
      (due ≡ []) × InTurn [] events (process_output v bytes t)
  InTurn due ((now, happens (updates id rows cols k)) ∷ events) t =
      InTurn (due ++ changes (updates id rows cols k) t) events (step v (updates id rows cols k) t)
  InTurn due ((now, happens (activates id active)) ∷ events) t =
      InTurn (due ++ changes (activates id active) t) events (step v (activates id active) t)
  InTurn due ((now, happens (removes id)) ∷ events) t =
      InTurn (due ++ changes (removes id) t) events (step v (removes id) t)
  InTurn due ((now, typed_in bytes) ∷ events) t = InTurn due events t
  InTurn [] ((now, resize_commanded rows cols) ∷ events) t = ⊥
  InTurn (d ∷ due) ((now, resize_commanded rows cols) ∷ events) t =
      (d ≡ (rows, cols)) × InTurn due events t

  -- The terminal after the resizes that are due.
  abbrev resized : List Dims → VirtualTerminal v → VirtualTerminal v
  resized [] u = u
  resized (d ∷ due) u = resized due (resize v d.0 d.1 u)

  resized-append :
      (xs ys : List Dims) (u : VirtualTerminal v) → resized (xs ++ ys) u ≡ resized ys (resized xs u)
  resized-append [] ys u = refl
  resized-append (d ∷ xs) ys u = resized-append xs ys (resize v d.0 d.1 u)

  -- Two terminals that show the same and would show the same after a resize.
  pub record IsShown (t u : VirtualTerminal v) : Type 0 where
    pub same_parser : t.parser ≡ u.parser
    pub same_capacity : t.scrollback_capacity ≡ u.scrollback_capacity

  process_output-IsShown :
      (bytes : Bytes) (t u : VirtualTerminal v)
      → IsShown t u
      → IsShown (process_output v bytes t) (process_output v bytes u)
  unfolding process_output compact
  process_output-IsShown bytes t u s = record {
    same_parser = ground (arith, s.same_parser);
    same_capacity = ground (arith, s.same_capacity);
  }

  resize-IsShown :
      (rows cols : ℕ) (t u : VirtualTerminal v)
      → IsShown t u
      → IsShown (resize v rows cols t) (resize v rows cols u)
  unfolding resize
  resize-IsShown rows cols t u s = record {
    same_parser = rw (s.same_parser, s.same_capacity) refl;
    same_capacity = s.same_capacity;
  }

  -- A change of dimensions is a resize.
  apply_dims-IsShown :
      (o : Option Dims) (t u : VirtualTerminal v)
      → IsShown t u
      → IsShown (apply_dims v o t).0 (resized (change_list (apply_dims v o t).1) u)
  unfolding apply_dims
  apply_dims-IsShown none t u s = s
  apply_dims-IsShown (some (rows, cols)) t u s =
      elim (Bool-cases (rows == t.effective_dims.0 && cols == t.effective_dims.1)) [
        | inl same ↦ rw same s
        | inr other ↦
            let q =
              resize-IsShown rows cols (record t { effective_dims = (rows, cols) }) u
                (record { same_parser = s.same_parser; same_capacity = s.same_capacity }) in
            rw other (record { same_parser = q.same_parser; same_capacity = q.same_capacity })
      ]

  negotiated-IsShown :
      (viewports : Viewports) (due : List Dims) (t u : VirtualTerminal v)
      → IsShown t (resized due u)
      → let r =
          apply_dims v
            (calculate_effective_dims viewports)
            (record t { client_viewports = viewports }) in
        IsShown r.0 (resized (due ++ change_list r.1) u)
  negotiated-IsShown viewports due t u s =
      let t_with = record t { client_viewports = viewports } in
      let o = calculate_effective_dims viewports in
      subst (IsShown (apply_dims v o t_with).0)
        (sym (resized-append due (change_list (apply_dims v o t_with).1) u))
        (apply_dims-IsShown o t_with (resized due u)
          (record { same_parser = s.same_parser; same_capacity = s.same_capacity }))

  -- What is still due stands between the terminal and what was recorded so far.
  live_run-IsShown :
      (begun : ℕ) (events : List (ℕ × LiveEvent)) (due : List Dims) (t u : VirtualTerminal v)
      → InTurn due events t
      → IsShown t (resized due u)
      → IsShown (live_run events t) (play_all v (events_of begun (live_calls events)) u)
  unfolding play_all play step update_viewport set_active remove_client recalculate_effective_dims
  live_run-IsShown begun [] due t u turn s = subst (λ x. IsShown t (resized x u)) turn s
  live_run-IsShown begun ((now, happens (outputs bytes)) ∷ events) due t u turn s =
      live_run-IsShown begun events [] (process_output v bytes t) (process_output v bytes u) turn.1
        (process_output-IsShown bytes t u (subst (λ x. IsShown t (resized x u)) turn.0 s))
  live_run-IsShown begun ((now, happens (updates id rows cols k)) ∷ events) due t u turn s =
      let w : ClientViewport = record {
        rows = rows;
        cols = cols;
        client_type = k;
        is_active = true;
      } in
      live_run-IsShown begun events (due ++ changes (updates id rows cols k) t)
        (step v (updates id rows cols k) t) u turn
        (negotiated-IsShown (insert id w t.client_viewports) due t u s)
  live_run-IsShown begun ((now, happens (activates id active)) ∷ events) due t u turn s =
      live_run-IsShown begun events (due ++ changes (activates id active) t)
        (step v (activates id active) t) u turn
        (negotiated-IsShown (activate v id active t.client_viewports) due t u s)
  live_run-IsShown begun ((now, happens (removes id)) ∷ events) due t u turn s =
      live_run-IsShown begun events (due ++ changes (removes id) t) (step v (removes id) t) u turn
        (negotiated-IsShown (remove id t.client_viewports) due t u s)
  live_run-IsShown begun ((now, typed_in bytes) ∷ events) due t u turn s =
      live_run-IsShown begun events due t u turn s
  live_run-IsShown begun ((now, resize_commanded rows cols) ∷ events) [] t u turn s = absurd turn
  live_run-IsShown begun ((now, resize_commanded rows cols) ∷ events) (d ∷ due) t u turn s =
      live_run-IsShown begun events due t (resize v rows cols u) turn.1
        (subst (λ (x : Dims). IsShown t (resized due (resize v x.0 x.1 u))) turn.0 s)

  -- The file of a recorder that was there from the start is read to its end, and played again it gives
  -- a terminal whose emulator stands where the emulator of the recorded terminal stands, after any
  -- sequence of output, input, changes of the clients' viewports and commands to resize, in which each
  -- change of the dimensions is followed by its command, in order, before the next output and the end.
  pub replay_recording-live_run :
      (c : Cbor)
      → IsCbor c
      → (begun max_delta_bytes : ℕ) (h : VtRecordingHeader) (events : List (ℕ × LiveEvent))
      → InTurn [] events (new_vt v h.rows h.cols max_delta_bytes h.scrollback_lines)
      → let t = new_vt v h.rows h.cols max_delta_bytes h.scrollback_lines in
        (r : VtRecording) × (parse_recording c
            (record_calls c
              (live_calls events)
              (new_recorder c begun h.rows h.cols h.scrollback_lines)).written
          ≡ some r)
        × IsShown (live_run events t) (replay_recording v max_delta_bytes r)
  unfolding replay_recording new_recorder
  replay_recording-live_run c laws begun max_delta_bytes h events turn =
      let t = new_vt v h.rows h.cols max_delta_bytes h.scrollback_lines in
      let made = live_calls events in
      (
        record { header = h; events = events_of begun made },
        parse_recording-whole c laws begun h made,
        live_run-IsShown begun events [] t t turn
            (record { same_parser = refl; same_capacity = refl }),
      )
