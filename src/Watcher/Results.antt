-- ===== src/Watcher/Results.antt =====
-- Where the result of a tool ends up: `poll` of packages/crab_city/src/ws/merging_watcher.rs, with the
-- result in the same poll as its use or in a later one.
use crabcity.Auth.Texts.{eq_text-true, eq_text_other}
use crabcity.Shared.{
  Bool-cases, List, Option, Option-cases, Text, [], ap, arith, eq_text, false, if◌then◌else◌, inl,
  inr, insert, lookup, lookup-insert, none, refl, some, sym, true, ◌∙◌, ◌∷◌, ◌≡◌, ◌≢◌,
}
use crabcity.Watcher.Merging.{track_uses}
use crabcity.Watcher.Turns.{
  ConvoTurn, ToolResult, ToolUse, awaits, find_use, has_use_id, is_unresolved, resolve_first,
  with_result,
}

-- A turn of which a use waits for a result.
abbrev pub IsAwaiting : Text → ToolUse → ConvoTurn → Type 0
IsAwaiting id u t = (find_use id t.tool_uses ≡ some u) × (u.result ≡ none)

pub is_unresolved-none : (u : ToolUse) → u.result ≡ none → is_unresolved u ≡ true
is_unresolved-none u e = ap (λ (o : Option ToolResult). elim o [ none ↦ true | some r ↦ false ]) e

pub resolve_first-found :
    (id : Text) (r : ToolResult) (uses : List ToolUse) (u : ToolUse)
    → find_use id uses ≡ some u
    → (changed : List ToolUse) × (resolve_first (has_use_id id) r uses ≡ some changed)
      × (find_use id changed ≡ some (with_result r u))
unfolding resolve_first find_use
resolve_first-found id r [] u e = cc
resolve_first-found id r (x ∷ uses) u e = elim (Bool-cases (eq_text x.id id)) [
  | inl same ↦
      let is_it : x ≡ u = ground (arith, e, same) in
      (
        with_result r x ∷ uses,
        rw (same, resolve_first) refl,
        rw (same, find_use) (ap (λ (y : ToolUse). some (with_result r y)) is_it),
      )
  | inr other ↦
      let found : find_use id uses ≡ some u = ground (arith, e, other) in
      let (changed, is_changed, there) = resolve_first-found id r uses u found in
      (x ∷ changed, rw (other, resolve_first, is_changed) refl, rw (other, find_use) there)
]

pub resolve_first-others :
    (id other_id : Text) (r : ToolResult) (uses changed : List ToolUse)
    → other_id ≢ id
    → resolve_first (has_use_id id) r uses ≡ some changed
    → find_use other_id changed ≡ find_use other_id uses
unfolding resolve_first find_use
resolve_first-others id other_id r [] changed ne e = cc
resolve_first-others id other_id r (x ∷ uses) changed ne e = elim (Bool-cases (eq_text x.id id)) [
  | inl same ↦
      let is_it : with_result r x ∷ uses ≡ changed = ground (arith, e, same) in
      let apart : eq_text x.id other_id ≡ false =
        eq_text_other x.id other_id (λ p. ne (sym p ∙ eq_text-true x.id id same)) in
      rw (sym is_it) (rw (apart, find_use) refl)
  | inr other ↦ elim (Option-cases (resolve_first (has_use_id id) r uses)) [
    | inl missing ↦ ground (arith, e, other, missing)
    | inr (rest, found) ↦
        let is_it : x ∷ rest ≡ changed = ground (arith, e, other, found) in
        rw (sym is_it) (
          ap (λ (o : Option ToolUse). if eq_text x.id other_id then some x else o)
            (resolve_first-others id other_id r uses rest ne found))
  ]
]

-- The first use with an id is the one that waits, so that both tests find the same.
pub resolve_first-awaits :
    (id : Text) (r : ToolResult) (uses : List ToolUse) (u : ToolUse)
    → find_use id uses ≡ some u
    → u.result ≡ none
    → resolve_first (awaits id) r uses ≡ resolve_first (has_use_id id) r uses
unfolding resolve_first find_use
resolve_first-awaits id r [] u e waits = cc
resolve_first-awaits id r (x ∷ uses) u e waits = elim (Bool-cases (eq_text x.id id)) [
  | inl same ↦
      let is_it : x ≡ u = ground (arith, e, same) in
      let open_use : is_unresolved x ≡ true = ap is_unresolved is_it ∙ is_unresolved-none u waits in
      rw (same, resolve_first, open_use) refl
  | inr other ↦
      let found : find_use id uses ≡ some u = ground (arith, e, other) in
      rw (other, resolve_first, resolve_first-awaits id r uses u found waits) refl
]

track_uses-keeps :
    (id turn_id : Text) (uses : List ToolUse) (pending : List (Text × Text))
    → lookup id pending ≡ some turn_id
    → lookup id (track_uses turn_id uses pending) ≡ some turn_id
unfolding track_uses
track_uses-keeps id turn_id [] pending e = e
track_uses-keeps id turn_id (x ∷ uses) pending e =
    track_uses-keeps id turn_id uses
      (if is_unresolved x then insert x.id turn_id pending else pending)
      (ground (arith, e, lookup-insert x.id id turn_id pending))

pub track_uses-awaiting :
    (id turn_id : Text) (uses : List ToolUse) (u : ToolUse) (pending : List (Text × Text))
    → find_use id uses ≡ some u
    → u.result ≡ none
    → lookup id (track_uses turn_id uses pending) ≡ some turn_id
unfolding track_uses find_use
track_uses-awaiting id turn_id [] u pending e waits = cc
track_uses-awaiting id turn_id (x ∷ uses) u pending e waits =
    let after = if is_unresolved x then insert x.id turn_id pending else pending in
    elim (Bool-cases (eq_text x.id id)) [
      | inl same ↦
          let is_it : x ≡ u = ground (arith, e, same) in
          let open_use : is_unresolved x ≡ true =
            ap is_unresolved is_it ∙ is_unresolved-none u waits in
          track_uses-keeps id turn_id uses after
            (ground (arith, open_use, same, lookup-insert x.id id turn_id pending))
      | inr other ↦
          let found : find_use id uses ≡ some u = ground (arith, e, other) in
          track_uses-awaiting id turn_id uses u after found waits
    ]
