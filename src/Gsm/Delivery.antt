-- ===== src/Gsm/Delivery.antt =====
-- Laws of the input handler (packages/crab_city/src/ws/state_manager.rs).
use crabcity.Attribution.Consume.{consume-push}
use crabcity.Attribution.Content.{attribution_content_matches, normalize_attribution_content}
use crabcity.Attribution.Queue.{
  Queues, consume_pending_attribution, push_pending_attribution, queue_of, typed,
}
use crabcity.Gsm.Cleanup.{SameFor}
use crabcity.Gsm.FirstInput.{FirstInputs, data_of, mark_first_input, marked}
use crabcity.Gsm.Input.{
  InputContext, InputUser, attribute, deliver, handle_from, handle_input, track_first_input,
}
use crabcity.Gsm.Instances.{get_handle}
use crabcity.Gsm.Locks.{LockMap, touch_terminal_lock}
use crabcity.Gsm.State.{GlobalStateManager}
use crabcity.Shared.{
  All, Bool, Bool-cases, List, Option, Option-cases, Text, [], ap, arith, eq_text, false, inl, inr,
  insert, is_empty, is_whitespace, length, lookup, lookup-insert, none, refl, some, trim, true, ℕ,
  ℕ_discrete, ◌<◌, ◌||◌, ◌∷◌, ◌≡◌, ◌≢◌, ◌⊎◌,
}

other_insert {ℓ} :
    {V : Type ℓ} (i j : Text) (v : V) (m : List (Text × V))
    → i ≢ j
    → lookup j (insert i v m) ≡ lookup j m
other_insert i j v m ne = ground (arith, lookup-insert i j v m)

touch_other :
    (now : ℕ) (i j c : Text) (locks : LockMap)
    → i ≢ j
    → lookup j (touch_terminal_lock now i c locks) ≡ lookup j locks
unfolding touch_terminal_lock
touch_other now i j c locks ne = elim (Option-cases (lookup i locks)) [
  | inl free ↦ rw (free, touch_terminal_lock) refl
  | inr (lock, held) ↦
      rw (held, touch_terminal_lock)
        (ground (arith, other_insert i j (record lock { last_activity = now }) locks))
]

push_lookup_other :
    (now : ℕ) (i j user_id display_name content : Text) (task_id : Option ℕ) (queues : Queues)
    → i ≢ j
    → lookup j (push_pending_attribution now i user_id display_name content task_id queues)
      ≡ lookup j queues
unfolding push_pending_attribution
push_lookup_other now i j user_id display_name content task_id queues ne =
    elim (Bool-cases (is_empty (normalize_attribution_content content))) [
      | inl blank ↦ rw blank refl
      | inr text ↦ rw text (other_insert i j _ queues ne)
    ]

track_other :
    (now : ℕ) (i j input : Text) (session : Option Text) (firsts : FirstInputs)
    → i ≢ j
    → lookup j (track_first_input now i input session firsts) ≡ lookup j firsts
unfolding track_first_input mark_first_input
track_other now i j input none firsts ne =
    other_insert i j (marked input (data_of now i firsts)) firsts ne
track_other now i j input (some session_id) firsts ne = refl

attribute_other :
    (now : ℕ) (repository : Bool) (ctx : InputContext) (user : Option InputUser) (j : Text)
    (queues : Queues)
    → ctx.instance_id ≢ j
    → lookup j (attribute now repository ctx user queues).0 ≡ lookup j queues
unfolding attribute
attribute_other now repository ctx none j queues ne = refl
attribute_other now repository ctx (some user) j queues ne = ground (
  arith,
  push_lookup_other now ctx.instance_id j user.user_id user.display_name (trim ctx.input)
      ctx.task_id queues,
)

attribute_blank :
    (now : ℕ) (repository : Bool) (ctx : InputContext) (user : Option InputUser) (queues : Queues)
    → (user ≡ none) ⊎ (trim ctx.input ≡ [])
    → attribute now repository ctx user queues ≡ (queues, none)
unfolding attribute
attribute_blank now repository ctx none queues h = refl
attribute_blank now repository ctx (some user) queues h = ground arith

blank_normal :
    (s : Text)
    → (is_empty s || eq_text s (13 ∷ []) || eq_text s (10 ∷ [])) ≡ true
    → is_empty (normalize_attribution_content s) ≡ true
unfolding normalize_attribution_content trim is_whitespace
blank_normal [] h = refl
blank_normal (c ∷ []) h = elim (ℕ_discrete c 13) [
  | yes e ↦ rw e refl
  | no ne ↦ let e : c ≡ 10 = ground arith in rw e refl
]
blank_normal (c ∷ d ∷ s) h = ground arith

attribute_push :
    (now : ℕ) (repository : Bool) (ctx : InputContext) (user : InputUser) (by : Option InputUser)
    (queues : Queues)
    → by ≡ some user
    → is_empty (normalize_attribution_content (trim ctx.input)) ≡ false
    → (attribute now repository ctx by queues).0
      ≡ push_pending_attribution now ctx.instance_id user.user_id user.display_name
          (trim ctx.input)
          ctx.task_id
          queues
unfolding attribute
attribute_push now repository ctx user none queues e text = absurd (cc)
attribute_push now repository ctx user (some u) queues e text =
    ground (arith, blank_normal (trim ctx.input))

module _ {Handle : Type 0} (get_session_id : Handle → Option Text)
    (write_input : Handle → Text → Option Text) where
  deliver-SameFor :
      (now : ℕ) (repository : Bool) (ctx : InputContext) (handle : Handle) (j : Text)
      (gsm : GlobalStateManager Handle)
      → ctx.instance_id ≢ j
      → SameFor j gsm (deliver get_session_id write_input now repository ctx handle gsm).0
  unfolding deliver
  deliver-SameFor now repository ctx handle j gsm ne = record {
    tracker = refl;
    session = λ s h. h;
    input =
        track_other now ctx.instance_id j ctx.input (get_session_id handle) gsm.first_input_at ne;
    queue = attribute_other now repository ctx ctx.user j gsm.pending_attributions ne;
    lock = touch_other now ctx.instance_id j ctx.connection_id gsm.terminal_locks ne;
    entered = refl;
    present = refl;
  }

  from-SameFor :
      (now : ℕ) (repository : Bool) (ctx : InputContext) (handle : Option Handle) (j : Text)
      (gsm : GlobalStateManager Handle)
      → ctx.instance_id ≢ j
      → SameFor j gsm (handle_from get_session_id write_input now repository ctx handle gsm).0
  unfolding handle_from
  from-SameFor now repository ctx none j gsm ne = record {
    tracker = refl;
    session = λ s h. h;
    input = refl;
    queue = refl;
    lock = refl;
    entered = refl;
    present = refl;
  }
  from-SameFor now repository ctx (some handle) j gsm ne =
      deliver-SameFor now repository ctx handle j gsm ne

  -- Whatever the actor answers, after input to one instance every other instance has the same
  -- registration, sessions, first input, pending attributions, lock, time of entry and presence.
  pub handle_input-SameFor :
      (now : ℕ) (repository : Bool) (ctx : InputContext) (j : Text)
      (gsm : GlobalStateManager Handle)
      → ctx.instance_id ≢ j
      → SameFor j gsm (handle_input get_session_id write_input now repository ctx gsm).0
  unfolding handle_input
  handle_input-SameFor now repository ctx j gsm ne =
      from-SameFor now repository ctx (get_handle ctx.instance_id gsm) j gsm ne

  -- For an instance that has a handle, input without a user, and input of white space alone, is
  -- written to the instance, with the error of that write as the answer, and leaves no
  -- attribution, neither pending nor in the database.
  pub handle_input_unattributed :
      (now : ℕ) (repository : Bool) (ctx : InputContext) (handle : Handle)
      (gsm : GlobalStateManager Handle)
      → get_handle ctx.instance_id gsm ≡ some handle
      → (ctx.user ≡ none) ⊎ (trim ctx.input ≡ [])
      → let (gsm', outcome) = handle_input get_session_id write_input now repository ctx gsm in
        (outcome.written ≡ some ctx.input)
        × (outcome.error ≡ write_input handle ctx.input)
        × (outcome.recorded ≡ none)
        × (gsm'.pending_attributions ≡ gsm.pending_attributions)
  unfolding handle_input deliver
  handle_input_unattributed now repository ctx handle gsm known quiet = rw known (
    refl,
    refl,
    ap (λ r. r.1) (attribute_blank now repository ctx ctx.user gsm.pending_attributions quiet),
    ap (λ r. r.0) (attribute_blank now repository ctx ctx.user gsm.pending_attributions quiet),
  )

  -- What a user types is attributed to that user when the conversation shows it: if the instance
  -- has a handle, the trimmed input is not blank in normal form, and fewer than fifty inputs are
  -- pending for the instance, none of which matches it, then consuming with the trimmed input, at
  -- any time after the input was handled, answers with what this user typed, and the queue of the
  -- instance is as it was before the input.
  pub handle_input-consume :
      (now later : ℕ) (repository : Bool) (ctx : InputContext) (user : InputUser) (handle : Handle)
      (gsm : GlobalStateManager Handle)
      → get_handle ctx.instance_id gsm ≡ some handle
      → ctx.user ≡ some user
      → is_empty (normalize_attribution_content (trim ctx.input)) ≡ false
      → length (queue_of ctx.instance_id gsm.pending_attributions) < 50
      → All
          (λ a. attribution_content_matches a.content_prefix (trim ctx.input) ≡ false)
          (queue_of ctx.instance_id gsm.pending_attributions)
      → let after = (handle_input get_session_id write_input now repository ctx gsm).0 in
        let (queues, found) =
          consume_pending_attribution later ctx.instance_id
            (trim ctx.input)
            after.pending_attributions in
        (found ≡ some (typed now user.user_id user.display_name (trim ctx.input) ctx.task_id))
        × (queue_of ctx.instance_id queues ≡ queue_of ctx.instance_id gsm.pending_attributions)
  unfolding handle_input deliver
  handle_input-consume now later repository ctx user handle gsm known by text room unmatched =
      rw known (
        rw (attribute_push now repository ctx user ctx.user gsm.pending_attributions by text) (
          consume-push now later ctx.instance_id user.user_id user.display_name (trim ctx.input)
            ctx.task_id gsm.pending_attributions text room unmatched))
