-- ===== src/Terminal/Said.antt =====
-- What the clients of a virtual terminal have said (packages/virtual_terminal/src/lib.rs), described
-- apart from its map of viewports.
use crabcity.Auth.Texts.{eq_text_other, eq_text_self}
use crabcity.Shared.{
  Bool, Bool-cases, List, Option, Text, [], ap, arith, eq_text, if◌then◌else◌, inl, inr, insert,
  lookup, lookup-insert, lookup-remove, none, refl, remove, some, sym, text_dec, true, ◌&&◌, ◌==◌,
  ◌∙◌, ◌∷◌, ◌≡◌,
}
use crabcity.Terminal.Emulator.{Vt100}
use crabcity.Terminal.Viewport.{ClientViewport, Dims, Viewports, calculate_effective_dims}
use crabcity.Terminal.Virtual.{
  Event, VirtualTerminal, activate, activates, apply_dims, compact, outputs, process_output,
  recalculate_effective_dims, remove_client, removes, resize, set_active, step, steps,
  update_viewport, updates,
}

-- What a client last said, after an event: its dimensions, and whether it is active.
abbrev pub said_after : (v : Vt100) → Text → Event v → Option ClientViewport → Option ClientViewport
said_after v c (outputs bytes) o = o
said_after v c (updates x rows cols k) o =
    if eq_text x c
    then some (record { rows = rows; cols = cols; client_type = k; is_active = true })
    else o
said_after v c (activates x active) none = none
said_after v c (activates x active) (some w) =
    if eq_text x c then some (record w { is_active = active }) else some w
said_after v c (removes x) o = if eq_text x c then none else o

abbrev pub said :
    (v : Vt100) → Text → List (Event v) → Option ClientViewport → Option ClientViewport
said v c [] o = o
said v c (e ∷ es) o = said v c es (said_after v c e o)

apply-viewports :
    (v : Vt100) (o : Option Dims) (t : VirtualTerminal v)
    → (apply_dims v o t).0.client_viewports ≡ t.client_viewports
unfolding apply_dims resize
apply-viewports v none t = refl
apply-viewports v (some (rows, cols)) t =
    elim (Bool-cases (rows == t.effective_dims.0 && cols == t.effective_dims.1)) [
      | inl same ↦ rw same refl
      | inr differ ↦ rw differ refl
    ]

negotiated-viewports :
    (v : Vt100) (m : Viewports) (t : VirtualTerminal v)
    → (apply_dims v
        (calculate_effective_dims m)
        (record t { client_viewports = m })).0.client_viewports
      ≡ m
negotiated-viewports v m t =
    apply-viewports v (calculate_effective_dims m) (record t { client_viewports = m })

lookup-activate :
    (v : Vt100) (x c : Text) (active : Bool) (m : Viewports)
    → lookup c (activate v x active m) ≡ said_after v c (activates x active) (lookup c m)
unfolding activate
lookup-activate v x c active m = go (lookup x m) refl (lookup c m) refl
  where
    go :
        (o : Option ClientViewport)
        → lookup x m ≡ o
        → (q : Option ClientViewport) → lookup c m ≡ q
        → lookup c (elim o [ none ↦ m | some w ↦ insert x (record w { is_active = active }) m ])
          ≡ said_after v c (activates x active) q
    go none e none f = f
    go none e (some w) f = elim (text_dec x c) [
      | yes same ↦ let g = ap (λ y. lookup y m) same in absurd (cc)
      | no other ↦ rw (eq_text_other x c other) f
    ]
    go (some u) e none f = elim (text_dec x c) [
      | yes same ↦ let g = ap (λ y. lookup y m) same in absurd (cc)
      | no other ↦
          lookup-insert x c (record u { is_active = active }) m ∙ rw (eq_text_other x c other) f
    ]
    go (some u) e (some w) f = elim (text_dec x c) [
      | yes same ↦
          let on : eq_text x c ≡ true = rw same (eq_text_self c) in
          let set : Option ClientViewport → Option ClientViewport =
            λ y. elim y [ none ↦ none | some z ↦ some (record z { is_active = active }) ] in
          let is_it : some u ≡ some w = sym e ∙ (ap (λ y. lookup y m) same ∙ f) in
          lookup-insert x c (record u { is_active = active }) m ∙ rw on (ap set is_it)
      | no other ↦
          lookup-insert x c (record u { is_active = active }) m ∙ rw (eq_text_other x c other) f
    ]

-- The map has for each client what it last said.
lookup-step :
    (v : Vt100) (e : Event v) (t : VirtualTerminal v) (c : Text)
    → lookup c (step v e t).client_viewports ≡ said_after v c e (lookup c t.client_viewports)
unfolding step update_viewport set_active remove_client recalculate_effective_dims process_output
    compact
lookup-step v (outputs bytes) t c = ground arith
lookup-step v (updates x rows cols k) t c =
    let w : ClientViewport = record {
      rows = rows;
      cols = cols;
      client_type = k;
      is_active = true;
    } in
    ap (lookup c) (negotiated-viewports v (insert x w t.client_viewports) t)
    ∙ lookup-insert x c w t.client_viewports
lookup-step v (activates x active) t c =
    ap (lookup c) (negotiated-viewports v (activate v x active t.client_viewports) t)
    ∙ lookup-activate v x c active t.client_viewports
lookup-step v (removes x) t c =
    ap (lookup c) (negotiated-viewports v (remove x t.client_viewports) t)
    ∙ lookup-remove x c t.client_viewports

pub lookup-steps :
    (v : Vt100) (es : List (Event v)) (t : VirtualTerminal v) (c : Text)
    → lookup c (steps v es t).client_viewports ≡ said v c es (lookup c t.client_viewports)
unfolding steps
lookup-steps v [] t c = refl
lookup-steps v (e ∷ es) t c =
    lookup-steps v es (step v e t) c ∙ ap (said v c es) (lookup-step v e t c)
