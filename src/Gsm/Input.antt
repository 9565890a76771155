-- ===== src/Gsm/Input.antt =====
-- `handle_input` of packages/crab_city/src/ws/state_manager.rs: the one entry point of terminal
-- input. What the instance's actor answers is a parameter, and so is the database: an attribution
-- record is in the answer if it is handed to the repository.
use crabcity.Attribution.Queue.{Queues, push_pending_attribution}
use crabcity.Gsm.FirstInput.{FirstInputs, mark_first_input}
use crabcity.Gsm.Instances.{get_handle}
use crabcity.Gsm.Locks.{touch_terminal_lock}
use crabcity.Gsm.State.{GlobalStateManager}
use crabcity.Shared.{
  Bool, Option, Text, [], codes, eq_text, if◌then◌else◌, is_empty, none, some, take, trim, ℕ, ◌/◌,
  ◌||◌, ◌∷◌,
}

pub record InputUser : Type 0 where
  pub user_id : Text
  pub display_name : Text

-- The field `input` is `data` in the code.
pub record InputContext : Type 0 where
  pub instance_id : Text
  pub input : Text
  pub connection_id : Text
  pub user : Option InputUser
  pub task_id : Option ℕ

-- The fields of `InputAttribution` that the handler sets; `id` and `entry_uuid` are `None` there.
pub record InputAttribution : Type 0 where
  pub instance_id : Text
  pub user_id : Text
  pub display_name : Text
  pub timestamp : ℕ
  pub content_preview : Text
  pub task_id : Option ℕ

-- What the handler returns, and the two effects outside the state: the write to the pseudo-terminal
-- and the record for the database.
pub record InputOutcome : Type 0 where
  pub error : Option Text
  pub written : Option Text
  pub recorded : Option InputAttribution

abbrev no_instance : Text
no_instance = codes "Instance handle not found"

-- Session discovery wants the content while the actor has no session.
unfoldable pub track_first_input : ℕ → Text → Text → Option Text → FirstInputs → FirstInputs
track_first_input now instance_id input none firsts =
    (mark_first_input now instance_id input firsts).0
track_first_input now instance_id input (some session_id) firsts = firsts

-- The steps that want an authenticated user, with whether there is a repository.
unfoldable pub attribute :
    ℕ → Bool → InputContext → Option InputUser → Queues → Queues × Option InputAttribution
attribute now repository ctx none queues = (queues, none)
attribute now repository ctx (some user) queues =
    let trimmed = trim ctx.input in
    if is_empty trimmed || eq_text trimmed (13 ∷ []) || eq_text trimmed (10 ∷ [])
    then (queues, none)
    else (
      push_pending_attribution now ctx.instance_id user.user_id user.display_name trimmed
          ctx.task_id queues,
      if repository
          then some (record {
            instance_id = ctx.instance_id;
            user_id = user.user_id;
            display_name = user.display_name;
            timestamp = now / 1000000000;
            content_preview = take 100 trimmed;
            task_id = ctx.task_id;
          })
          else none,
    )

-- The actor's answers: its session, and the error of a write.
module _ {Handle : Type 0} (get_session_id : Handle → Option Text)
    (write_input : Handle → Text → Option Text) where
  unfoldable pub deliver :
      ℕ
      → Bool
      → InputContext
      → Handle
      → GlobalStateManager Handle
      → GlobalStateManager Handle × InputOutcome
  unfolding track_first_input attribute
  deliver now repository ctx handle gsm =
      let (queues, recorded) = attribute now repository ctx ctx.user gsm.pending_attributions in
      (
        record gsm {
          first_input_at =
              track_first_input now ctx.instance_id ctx.input (get_session_id handle)
                gsm.first_input_at;
          pending_attributions = queues;
          terminal_locks =
              touch_terminal_lock now ctx.instance_id ctx.connection_id gsm.terminal_locks;
        },
        record {
          error = write_input handle ctx.input;
          written = some ctx.input;
          recorded = recorded;
        },
      )

  -- The input, given the handle that the registration has.
  unfoldable pub handle_from :
      ℕ
      → Bool
      → InputContext
      → Option Handle
      → GlobalStateManager Handle
      → GlobalStateManager Handle × InputOutcome
  unfolding deliver
  handle_from now repository ctx none gsm =
      (gsm, record { error = some no_instance; written = none; recorded = none })
  handle_from now repository ctx (some handle) gsm = deliver now repository ctx handle gsm

  unfoldable pub handle_input :
      ℕ → Bool → InputContext → GlobalStateManager Handle → GlobalStateManager Handle × InputOutcome
  unfolding handle_from
  handle_input now repository ctx gsm =
      handle_from now repository ctx (get_handle ctx.instance_id gsm) gsm
