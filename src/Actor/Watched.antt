-- ===== src/Actor/Watched.antt =====
-- The inbox of an instance whose actor's broadcasts a watcher observes
-- (packages/crab_city/src/instance_actor.rs with packages/crab_city/src/ws/state_manager.rs).
use crabcity.Inference.Manager
use crabcity.Actor.Instance.{ActorEvent, InstanceActor, actor_run, actor_step, spawn}
use crabcity.Actor.Turns.{Tells, actor_step-Tells, same_work}
use crabcity.Driver.Claude.{ClaudeDriver, map_state, new_driver, start}
use crabcity.Driver.Process.{ProcessState}
use crabcity.Driver.Sync.{IsSynced}
use crabcity.Gsm.Attention.{
  kind, kind-completed, kind-needs_input, kind-new_work, kind-responded, new_watch, observe_all,
  observe_known, observe_unknown,
}
use crabcity.Gsm.Inbox.{
  Inbox, Watch, completed_turn, observe, on_completed, on_needs_input, on_responded, transition,
}
use crabcity.Inference.State.{ClaudeState, is_active, is_idle}
use crabcity.Shared.{
  Bool-cases, List, Option, Text, [], ap, arith, false, inl, inr, lookup, lookup-insert_self, map,
  none, refl, some, subst, sym, true, ℕ, ◌++◌, ◌/◌, ◌∙◌, ◌∷◌, ◌≡◌, ◌≢◌,
}
use crabcity.Terminal.Emulator.{Vt100}

-- The state that the watcher saw last, beside the process state of the driver.
abbrev Saw : Option ClaudeState → ProcessState → Type 0
Saw none current = Unit {0}
Saw (some p) current = map_state p ≡ current

-- The watcher is in step with the driver, and no completed turn is in the inbox.
abbrev Unfinished : {Json : Type 0} → Text → ClaudeDriver Json → Watch → Type 0
Unfinished i d w =
    IsSynced d
    × Saw (lookup i w.prev_states) d.current_state
    × (kind i w.inbox ≢ some completed_turn)

-- A transition that is not from work to idle reports no completed turn.
transition_unfinished :
    (print : Text → Text) (now : ℕ) (i : Text) (prev state : ClaudeState) (inbox : Inbox)
    → (is_active prev ≡ true → is_idle state ≡ false)
    → kind i inbox ≢ some completed_turn
    → kind i (transition print now i prev state inbox) ≢ some completed_turn
unfolding transition is_active
transition_unfinished print now i prev state inbox never h =
    let a = on_completed now i prev state inbox in
    let b = on_needs_input print now i prev state a in
    let c = on_responded i prev state b in
    ground (
      arith,
      kind-completed now i prev state inbox,
      kind-needs_input print now i prev state a,
      kind-responded i prev state b,
      kind-new_work i prev state c,
    )

module _ {Json : Type 0} where
  observe-Unfinished :
      (print : Text → Text) (now : ℕ) (i : Text) (d e : ClaudeDriver Json) (w : Watch)
      (held : Option ClaudeState)
      → lookup i w.prev_states ≡ held
      → Unfinished i d w
      → IsSynced e
      → (is_active d.current_claude_state ≡ true → is_idle e.current_claude_state ≡ false)
      → Unfinished i e (observe print now i e.current_claude_state w)
  observe-Unfinished print now i d e w none unseen u synced never =
      let s = e.current_claude_state in
      let (same, seen) = observe_unknown print now i s w unseen in
      (
        synced,
        rw (seen, lookup-insert_self i s w.prev_states) (ap map_state synced.0 ∙ sym synced.1),
        rw same u.2,
      )
  observe-Unfinished print now i d e w (some p) known u synced never =
      let s = e.current_claude_state in
      let (changed, seen) = observe_known print now i p s w known in
      let told : map_state p ≡ d.current_state =
        subst (λ (q : Option ClaudeState). Saw q d.current_state) known u.1 in
      let work : is_active p ≡ is_active d.current_claude_state =
        same_work p d.current_claude_state (told ∙ (u.0.1 ∙ ap map_state (sym u.0.0))) in
      (
        synced,
        rw (seen, lookup-insert_self i s w.prev_states) (ap map_state synced.0 ∙ sym synced.1),
        rw changed (
            transition_unfinished print (now / 1000000000) i p s w.inbox (λ h. never (sym work ∙ h))
              u.2),
      )

-- The broadcasts of one instance, as the watcher receives them.
abbrev pub of_instance : Text → List (ℕ × ClaudeState) → List (ℕ × Text × ClaudeState)
of_instance i = map (λ b. (b.0, i, b.1))

observe_all-append :
    (print : Text → Text) (xs ys : List (ℕ × Text × ClaudeState)) (w : Watch)
    → observe_all print (xs ++ ys) w ≡ observe_all print ys (observe_all print xs w)
unfolding observe_all
observe_all-append print [] ys w = refl
observe_all-append print ((now, i, s) ∷ xs) ys w =
    observe_all-append print xs ys (observe print now i s w)

of_instance-append :
    (i : Text) (xs ys : List (ℕ × ClaudeState))
    → of_instance i (xs ++ ys) ≡ of_instance i xs ++ of_instance i ys
of_instance-append i [] ys = refl
of_instance-append i (x ∷ xs) ys = ap (◌∷◌ (x.0, i, x.1)) (of_instance-append i xs ys)

-- The watcher after the broadcasts of one step.
abbrev watched : (Text → Text) → Text → ℕ → List ClaudeState → Watch → Watch
watched print i now sent w = observe_all print (of_instance i (map (λ s. (now, s)) sent)) w

module _ {Json : Type 0} (v : Vt100) (print : Text → Text) (i : Text) where
  told-Unfinished :
      (now : ℕ) (a : InstanceActor Json v) (b : InstanceActor Json v × List ClaudeState) (w : Watch)
      → Unfinished i a.driver w
      → Tells v a b
      → Unfinished i b.0.driver (watched print i now b.1 w)
  unfolding observe_all
  told-Unfinished now a (b, []) w u t = (t.0, rw t.1 u.1, u.2)
  told-Unfinished now a (b, s ∷ []) w u t =
      let (synced, (same, never)) = t in
      rw same (
        observe-Unfinished print now i a.driver b.driver w (lookup i w.prev_states) refl u synced
          (λ h. ap is_idle (sym same) ∙ never h))
  told-Unfinished now a (b, s ∷ r ∷ more) w u t = absurd t.1

  run-Unfinished :
      (decode : List ℕ → Text) (es : List (ℕ × ActorEvent Json)) (a : InstanceActor Json v)
      (w : Watch)
      → Unfinished i a.driver w
      → Unfinished i
          (actor_run v decode es a).0.driver
          (observe_all print (of_instance i (actor_run v decode es a).1) w)
  unfolding actor_run observe_all
  run-Unfinished decode [] a w u = u
  run-Unfinished decode ((now, e) ∷ es) a w u =
      let b = actor_step v decode now e a in
      let c = actor_run v decode es b.0 in
      let here = told-Unfinished now a b w u (actor_step-Tells v decode now e a u.0) in
      elim (Bool-cases b.0.running) [
        | inl runs ↦
            rw (runs, of_instance-append i (map (λ s. (now, s)) b.1) c.1)
              (rw
                (observe_all-append print (of_instance i (map (λ s. (now, s)) b.1))
                  (of_instance i c.1) w)
                (run-Unfinished decode es b.0 (watched print i now b.1 w) here))
        | inr ends ↦ rw ends here
      ]

-- A watcher that sees the broadcasts of a new actor never has a completed turn of its instance in
-- the inbox, whatever reaches the actor.
pub spawn-never_completed :
    {Json : Type 0} (v : Vt100) (print : Text → Text) (decode : List ℕ → Text) (i : Text)
    (now max_buffer_bytes scrollback_lines : ℕ) (es : List (ℕ × ActorEvent Json))
    → kind i
        (observe_all print
          (of_instance i
            (actor_run v decode es (spawn v i now max_buffer_bytes scrollback_lines)).1)
          new_watch).inbox
      ≢ some completed_turn
unfolding spawn start lookup new_driver Manager.new map_state
spawn-never_completed v print decode i now max_buffer_bytes scrollback_lines es =
    (run-Unfinished v print i decode es (spawn v i now max_buffer_bytes scrollback_lines) new_watch
      ((refl, refl), tt, λ e. absurd (cc))).2
