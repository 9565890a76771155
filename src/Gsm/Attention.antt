-- ===== src/Gsm/Attention.antt =====
-- The inbox follows the states (packages/crab_city/src/ws/state_manager.rs).
use crabcity.Gsm.Inbox.{
  EventType, EventType-discrete, Inbox, InboxItem, Watch, clear_inbox_by_type, completed_turn,
  metadata_of, needs_input, observe, on_completed, on_needs_input, on_new_work, on_responded,
  transition, upsert_inbox_item, upserted,
}
use crabcity.Inference.State.{ClaudeState, is_active, is_idle, is_waiting}
use crabcity.Shared.{
  Bool-cases, List, Option, Option-cases, Text, [], ap, arith, eq_text, false, holds, if◌then◌else◌,
  inl, inr, insert, lookup, lookup-insert, lookup-insert_self, lookup-remove, none, not, refl, some,
  subst, text_dec, true, ℕ, ◌&&◌, ◌/◌, ◌∷◌, ◌≡◌, ◌≢◌,
}
use crabcity.Socket.Focus.{quiet}

abbrev pub type_of : Option InboxItem → Option EventType
type_of none = none
type_of (some row) = some row.event_type

-- What the inbox has for an instance.
abbrev pub kind : Text → Inbox → Option EventType
kind i inbox = type_of (lookup i inbox)

-- A request for input stands only while the instance waits for it, and a completed turn only while
-- the instance does not work.
abbrev pub Suits : ClaudeState → Option EventType → Type 0
Suits state none = Unit {0}
Suits state (some needs_input) = is_waiting state ≡ true
Suits state (some completed_turn) = is_active state ≡ false

abbrev pub without : EventType → Option EventType → Option EventType
without t none = none
without t (some u) = if holds (EventType-discrete u t) then none else some u

pub kind-clear :
    (i : Text) (t : EventType) (inbox : Inbox) (held : Option InboxItem)
    → lookup i inbox ≡ held
    → kind i (clear_inbox_by_type i t inbox).0 ≡ without t (kind i inbox)
unfolding clear_inbox_by_type
kind-clear i t inbox none e = ground arith
kind-clear i t inbox (some row) e = ground (arith, lookup-remove i i inbox)

upserted-type :
    (now : ℕ) (t : EventType) (metadata : Option Text) (held : Option InboxItem)
    → (upserted now t metadata held).event_type ≡ t
unfolding upserted
upserted-type now t metadata none = refl
upserted-type now t metadata (some row) = ground arith

pub kind-upsert :
    (now : ℕ) (i : Text) (t : EventType) (metadata : Option Text) (inbox : Inbox)
    → kind i (upsert_inbox_item now i t metadata inbox) ≡ some t
unfolding upsert_inbox_item
kind-upsert now i t metadata inbox =
    rw (lookup-insert_self i (upserted now t metadata (lookup i inbox)) inbox)
      (ap some (upserted-type now t metadata (lookup i inbox)))

pub kind-completed :
    (now : ℕ) (i : Text) (prev state : ClaudeState) (inbox : Inbox)
    → kind i (on_completed now i prev state inbox)
      ≡ (if is_active prev && is_idle state then some completed_turn else kind i inbox)
unfolding on_completed
kind-completed now i prev state inbox = ground (arith, kind-upsert now i completed_turn none inbox)

pub kind-needs_input :
    (print : Text → Text) (now : ℕ) (i : Text) (prev state : ClaudeState) (inbox : Inbox)
    → kind i (on_needs_input print now i prev state inbox)
      ≡ (if is_waiting state && not (is_waiting prev) then some needs_input else kind i inbox)
unfolding on_needs_input
kind-needs_input print now i prev state inbox =
    elim (Bool-cases (is_waiting state && not (is_waiting prev))) [
      | inl asks ↦ rw asks (kind-upsert now i needs_input (metadata_of print state) inbox)
      | inr quiet ↦ rw quiet refl
    ]

pub kind-responded :
    (i : Text) (prev state : ClaudeState) (inbox : Inbox)
    → kind i (on_responded i prev state inbox) ≡ (
        if is_waiting prev && not (is_waiting state)
        then without needs_input (kind i inbox)
        else kind i inbox)
unfolding on_responded
kind-responded i prev state inbox =
    ground (arith, kind-clear i needs_input inbox (lookup i inbox) refl)

pub kind-new_work :
    (i : Text) (prev state : ClaudeState) (inbox : Inbox)
    → kind i (on_new_work i prev state inbox) ≡ (
        if not (is_active prev) && is_active state
        then without completed_turn (kind i inbox)
        else kind i inbox)
unfolding on_new_work
kind-new_work i prev state inbox =
    ground (arith, kind-clear i completed_turn inbox (lookup i inbox) refl)

transition-Suits :
    (print : Text → Text) (now : ℕ) (i : Text) (prev state : ClaudeState) (inbox : Inbox)
    → Suits prev (kind i inbox)
    → Suits state (kind i (transition print now i prev state inbox))
unfolding transition is_active
transition-Suits print now i prev state inbox v =
    let a = on_completed now i prev state inbox in
    let b = on_needs_input print now i prev state a in
    let c = on_responded i prev state b in
    ground (
      arith,
      kind-completed now i prev state inbox,
      kind-needs_input print now i prev state a,
      kind-responded i prev state b,
      kind-new_work i prev state c,
    )

upsert_other :
    (now : ℕ) (i j : Text) (t : EventType) (metadata : Option Text) (inbox : Inbox)
    → i ≢ j
    → kind j (upsert_inbox_item now i t metadata inbox) ≡ kind j inbox
unfolding upsert_inbox_item
upsert_other now i j t metadata inbox ne =
    ground (arith, lookup-insert i j (upserted now t metadata (lookup i inbox)) inbox)

clear_other :
    (i j : Text) (t : EventType) (inbox : Inbox)
    → i ≢ j
    → kind j (clear_inbox_by_type i t inbox).0 ≡ kind j inbox
unfolding clear_inbox_by_type
clear_other i j t inbox ne = ground (arith, lookup-remove i j inbox)

transition_other :
    (print : Text → Text) (now : ℕ) (i j : Text) (prev state : ClaudeState) (inbox : Inbox)
    → i ≢ j
    → kind j (transition print now i prev state inbox) ≡ kind j inbox
unfolding transition on_completed on_needs_input on_responded on_new_work
transition_other print now i j prev state inbox ne =
    let a = on_completed now i prev state inbox in
    let b = on_needs_input print now i prev state a in
    let c = on_responded i prev state b in
    ground (
      arith,
      upsert_other now i j completed_turn none inbox,
      upsert_other now i j needs_input (metadata_of print state) a,
      clear_other i j needs_input b,
      clear_other i j completed_turn c,
    )

abbrev pub Attends : Option ClaudeState → Option EventType → Type 0
Attends none k = k ≡ none
Attends (some state) k = Suits state k

-- The inbox suits the last state seen of every instance, and has nothing for an unseen one.
abbrev pub IsAttended : Watch → Type 0
IsAttended w = (i : Text) → Attends (lookup i w.prev_states) (kind i w.inbox)

pub observe_known :
    (print : Text → Text) (now : ℕ) (i : Text) (prev state : ClaudeState) (w : Watch)
    → lookup i w.prev_states ≡ some prev
    → ((observe print now i state w).inbox
        ≡ transition print (now / 1000000000) i prev state w.inbox)
      × ((observe print now i state w).prev_states ≡ insert i state w.prev_states)
unfolding observe
observe_known print now i prev state w e = rw (e, observe) (refl, refl)

pub observe_unknown :
    (print : Text → Text) (now : ℕ) (i : Text) (state : ClaudeState) (w : Watch)
    → lookup i w.prev_states ≡ none
    → ((observe print now i state w).inbox ≡ w.inbox)
      × ((observe print now i state w).prev_states ≡ insert i state w.prev_states)
unfolding observe
observe_unknown print now i state w e = rw (e, observe) (refl, refl)

Suits-none : (state : ClaudeState) (k : Option EventType) → k ≡ none → Suits state k
Suits-none state k e = ground arith

attend :
    (i j : Text) (state : ClaudeState) (p : Option ClaudeState) (k : Option EventType)
    → (i ≡ j → Suits state k)
    → (i ≢ j → Attends p k)
    → Attends (if eq_text i j then some state else p) k
attend i j state p k same other =
    elim (text_dec i j) as (λ d. Attends (if holds d then some state else p) k) [
      | yes e ↦ same e
      | no ne ↦ other ne
    ]

unseen_kind :
    (i : Text) (w : Watch) → IsAttended w → lookup i w.prev_states ≡ none → kind i w.inbox ≡ none
unseen_kind i w v e = subst (λ (p : Option ClaudeState). Attends p (kind i w.inbox)) e (v i)

seen_kind :
    (i : Text) (prev : ClaudeState) (w : Watch)
    → IsAttended w
    → lookup i w.prev_states ≡ some prev
    → Suits prev (kind i w.inbox)
seen_kind i prev w v e = subst (λ (p : Option ClaudeState). Attends p (kind i w.inbox)) e (v i)

observe-IsAttended :
    (print : Text → Text) (now : ℕ) (i : Text) (state : ClaudeState) (w : Watch)
    → IsAttended w
    → IsAttended (observe print now i state w)
observe-IsAttended print now i state w v j = elim (Option-cases (lookup i w.prev_states)) [
  | inl unseen ↦
      let (same, seen) = observe_unknown print now i state w unseen in
      rw (same, seen, lookup-insert i j state w.prev_states)
        (attend i j state (lookup j w.prev_states) (kind j w.inbox)
          (λ e. rw (← e) (Suits-none state (kind i w.inbox) (unseen_kind i w v unseen)))
          (λ ne. v j))
  | inr (prev, known) ↦
      let (changed, seen) = observe_known print now i prev state w known in
      let after = transition print (now / 1000000000) i prev state w.inbox in
      rw (changed, seen, lookup-insert i j state w.prev_states)
        (attend i j state (lookup j w.prev_states) (kind j after)
          (λ e. rw (← e) (
            transition-Suits print (now / 1000000000) i prev state w.inbox
              (seen_kind i prev w v known)))
          (λ ne. rw (transition_other print (now / 1000000000) i j prev state w.inbox ne) (v j)))
]

unfoldable pub observe_all : (Text → Text) → List (ℕ × Text × ClaudeState) → Watch → Watch
observe_all print [] w = w
observe_all print ((now, i, state) ∷ rest) w = observe_all print rest (observe print now i state w)

observe_all-IsAttended :
    (print : Text → Text) (ss : List (ℕ × Text × ClaudeState)) (w : Watch)
    → IsAttended w
    → IsAttended (observe_all print ss w)
unfolding observe_all
observe_all-IsAttended print [] w v = v
observe_all-IsAttended print ((now, i, state) ∷ ss) w v =
    observe_all-IsAttended print ss (observe print now i state w)
      (observe-IsAttended print now i state w v)

abbrev pub new_watch : Watch
new_watch = record { prev_states = []; state_entered_at = []; inbox = [] }

-- A watcher that starts with an empty inbox keeps it in line with the states that it sees, in
-- whatever order and of however many instances: an instance's item asks for input only while its
-- last state waits for it, reports a completed turn only while its last state does not work, and
-- an instance that was never seen has none.
pub observe_new-IsAttended :
    (print : Text → Text) (ss : List (ℕ × Text × ClaudeState))
    → IsAttended (observe_all print ss new_watch)
unfolding lookup
observe_new-IsAttended print ss = observe_all-IsAttended print ss new_watch (λ i. refl)
