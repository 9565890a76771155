-- ===== src/Terminal/Negotiation.antt =====
-- The dimensions of the virtual terminal are those that the active clients agree on
-- (packages/virtual_terminal/src/lib.rs).
use crabcity.Shared.{
  Bool-cases, List, Option, Text, [], arith, inl, inr, length, lookup, ltb, none, refl, some, subst,
  true, ℕ, ◌&&◌, ◌++◌, ◌==◌, ◌∙◌, ◌∷◌, ◌≡◌, ◌≤◌,
}
use crabcity.Terminal.Agreement.{
  IsAgreed, KeysDiffer, activate-KeysDiffer, calculate-IsAgreed, calculate-nobody,
  insert-KeysDiffer, remove-KeysDiffer,
}
use crabcity.Terminal.Emulator.{Bytes, IsEmulator, Vt100}
use crabcity.Terminal.Said.{lookup-steps, said}
use crabcity.Terminal.Scrollback.{lines}
use crabcity.Terminal.Viewport.{ClientViewport, Dims, calculate_effective_dims}
use crabcity.Terminal.Virtual.{
  Event, VirtualTerminal, activates, apply_dims, new_vt, outputs, process_output, removes, step,
  steps, updates,
}

module _ (v : Vt100) (law : IsEmulator v) where
  -- The dimensions are those of the active clients, if there are any, and those of the emulator;
  -- and the raw output kept stays within its limit.
  record IsSized (t : VirtualTerminal v) : Type 0 where
    pub differ : KeysDiffer t.client_viewports
    pub agreed : IsAgreed t.client_viewports t.effective_dims
    pub sized : v.size t.parser ≡ t.effective_dims
    pub bounded : length t.deltas ≤ t.max_delta_bytes

  new_vt-IsSized :
      (rows cols max_delta_bytes lines : ℕ) → IsSized (new_vt v rows cols max_delta_bytes lines)
  unfolding new_vt calculate_effective_dims
  new_vt-IsSized rows cols max_delta_bytes lines = record {
    differ = tt;
    agreed = calculate-nobody [] (rows, cols) refl;
    sized = law.size_new rows cols lines;
    bounded = omega arith;
  }

  -- The fields that the negotiation starts from.
  apply-IsSized :
      (t : VirtualTerminal v) (o : Option Dims)
      → KeysDiffer t.client_viewports
      → calculate_effective_dims t.client_viewports ≡ o
      → v.size t.parser ≡ t.effective_dims
      → length t.deltas ≤ t.max_delta_bytes
      → IsSized (apply_dims v o t).0
  unfolding apply_dims
  apply-IsSized t none k e s b = record {
    differ = k;
    agreed = calculate-nobody t.client_viewports t.effective_dims e;
    sized = s;
    bounded = b;
  }
  apply-IsSized t (some (rows, cols)) k e s b =
      let agrees = calculate-IsAgreed t.client_viewports (rows, cols) k e in
      elim (Bool-cases (rows == t.effective_dims.0 && cols == t.effective_dims.1)) [
        | inl same ↦
            let is_it : Path Dims (rows, cols) t.effective_dims = ground (arith, same) in
            rw same (record {
              differ = k;
              agreed = subst (IsAgreed t.client_viewports) is_it agrees;
              sized = s;
              bounded = b;
            })
        | inr differs ↦ rw differs (record {
          differ = k;
          agreed = agrees;
          sized =
              law.size_process _ _
              ∙ (law.size_process _ _ ∙ law.size_new rows cols t.scrollback_capacity);
          bounded = omega arith;
        })
      ]

  output-IsSized :
      (bytes : Bytes) (t : VirtualTerminal v) → IsSized t → IsSized (process_output v bytes t)
  unfolding process_output
  output-IsSized bytes t g =
      elim (Bool-cases (ltb t.max_delta_bytes (length (t.deltas ++ bytes)))) [
        | inl over ↦ rw over (record {
          differ = g.differ;
          agreed = g.agreed;
          sized = law.size_process t.parser bytes ∙ g.sized;
          bounded = omega arith;
        })
        | inr fits ↦ rw fits (record {
          differ = g.differ;
          agreed = g.agreed;
          sized = law.size_process t.parser bytes ∙ g.sized;
          bounded = ground arith;
        })
      ]

  -- Every event keeps the negotiation.
  step-IsSized : (e : Event v) (t : VirtualTerminal v) → IsSized t → IsSized (step v e t)
  unfolding step
  step-IsSized (outputs bytes) t g = output-IsSized bytes t g
  step-IsSized (updates c rows cols k) t g =
      let w : ClientViewport = record {
        rows = rows;
        cols = cols;
        client_type = k;
        is_active = true;
      } in
      apply-IsSized _ _ (insert-KeysDiffer c w t.client_viewports g.differ) refl g.sized g.bounded
  step-IsSized (activates c active) t g =
      apply-IsSized _ _ (activate-KeysDiffer v c active t.client_viewports g.differ) refl g.sized
        g.bounded
  step-IsSized (removes c) t g =
      apply-IsSized _ _ (remove-KeysDiffer c t.client_viewports g.differ) refl g.sized g.bounded

  steps-IsSized : (es : List (Event v)) (t : VirtualTerminal v) → IsSized t → IsSized (steps v es t)
  unfolding steps
  steps-IsSized [] t g = g
  steps-IsSized (e ∷ es) t g = steps-IsSized es (step v e t) (step-IsSized e t g)

  -- The viewports are what the clients last said in a sequence of events, the dimensions are the
  -- smallest of the active ones, if there are any, the emulator has just this size, and the raw output
  -- kept is within its limit.
  pub record IsNegotiated (es : List (Event v)) (t : VirtualTerminal v) : Type 0 where
    pub known : (c : Text) → lookup c t.client_viewports ≡ said v c es none
    pub smallest : IsAgreed t.client_viewports t.effective_dims
    pub same_size : v.size t.parser ≡ t.effective_dims
    pub within : length t.deltas ≤ t.max_delta_bytes

  -- Over an emulator as documented, after any outputs and any changes of the clients, the terminal has
  -- for each client the viewport that it last said, active or not as it last said, and none for one
  -- that left. The rows and the columns are the smallest among the active clients, if there are any,
  -- the emulator has just this size, and the raw output kept is within its limit.
  pub steps_new-IsNegotiated :
      (rows cols max_delta_bytes lines : ℕ) (es : List (Event v))
      → IsNegotiated es (steps v es (new_vt v rows cols max_delta_bytes lines))
  unfolding new_vt lookup
  steps_new-IsNegotiated rows cols max_delta_bytes lines es =
      let start = new_vt v rows cols max_delta_bytes lines in
      let g = steps-IsSized es start (new_vt-IsSized rows cols max_delta_bytes lines) in
      record {
        known = λ c. lookup-steps v es start c;
        smallest = g.agreed;
        same_size = g.sized;
        within = g.bounded;
      }
