-- ===== src/Actor/Instance.antt =====
-- The actor of a Claude instance (packages/crab_city/src/instance_actor.rs). What it sends on its
-- output and lifecycle channels is kept as lists, oldest first; the states that it broadcasts are the
-- answer of each step. Commands that only read are left out, and so are the recorder and the
-- pseudo-terminal.
use crabcity.Inference.State
use crabcity.Driver.Claude.{
  ClaudeDriver, new_driver, on_input, on_output, on_signal, on_tick, start,
}
use crabcity.Driver.Process.{DriverEffect, DriverSignal, ProcessState}
use crabcity.Inference.State.{ClaudeState}
use crabcity.Shared.{
  Bool, List, Option, Text, [], false, if◌then◌else◌, map, none, some, true, ℕ, ◌++◌, ◌∷◌,
}
use crabcity.Terminal.Emulator.{Bytes, Vt100}
use crabcity.Terminal.Viewport.{ClientType, Dims}
use crabcity.Terminal.Virtual.{
  VirtualTerminal, new_vt, process_output, remove_client, set_active, update_viewport,
}

-- The fields of `InstanceInfo` that change, the driver, the virtual terminal, and what was sent.
pub record InstanceActor (Json : Type 0) (v : Vt100) : Type 0 where
  pub driver : ClaudeDriver Json
  pub virtual_terminal : VirtualTerminal v
  pub claude_state : Option ClaudeState
  pub session_id : Option Text
  pub custom_name : Option Text
  pub running : Bool
  pub enriched : List (Bytes × Dims)
  pub rotations : List (Text × Text)

-- What reaches the actor: a command, output of the process, a signal of the driver's task, or a tick.
pub data ActorEvent (Json : Type 0) : Type 0 where
  write_input : (line : Text) → ActorEvent Json
  set_session_id : (session : Text) → ActorEvent Json
  set_custom_name : (custom : Option Text) → ActorEvent Json
  stop : ActorEvent Json
  pty_output : (bytes : Bytes) → ActorEvent Json
  driver_signal : DriverSignal Json → ActorEvent Json
  tick_interval : ActorEvent Json
  viewport_updated :
      (connection_id : Text) (rows cols : ℕ) (client_type : ClientType) → ActorEvent Json
  client_activated : (connection_id : Text) (active : Bool) → ActorEvent Json
  client_removed : (connection_id : Text) → ActorEvent Json

-- A rotation is announced if there was a session before.
unfoldable pub rotated : Option Text → Text → List (Text × Text) → List (Text × Text)
rotated none session rotations = rotations
rotated (some old) session rotations = rotations ++ (old, session) ∷ []

module _ {Json : Type 0} (v : Vt100) where
  -- An actor as it is spawned, with its driver started.
  unfoldable pub spawn : Text → ℕ → (max_buffer_bytes scrollback_lines : ℕ) → InstanceActor Json v
  unfolding new_driver start new_vt
  spawn instance_id now max_buffer_bytes scrollback_lines = record {
    driver = start instance_id (new_driver now);
    virtual_terminal = new_vt v 24 80 max_buffer_bytes scrollback_lines;
    claude_state = some State.initializing;
    session_id = none;
    custom_name = none;
    running = true;
    enriched = [];
    rotations = [];
  }

  unfoldable pub broadcast_state : InstanceActor Json v → InstanceActor Json v × List ClaudeState
  broadcast_state a = (
    record a { claude_state = some a.driver.current_claude_state },
    a.driver.current_claude_state ∷ [],
  )

  unfoldable pub broadcast_change :
      Option ProcessState → InstanceActor Json v → InstanceActor Json v × List ClaudeState
  unfolding broadcast_state
  broadcast_change none a = (a, [])
  broadcast_change (some state) a = broadcast_state a

  unfoldable pub process_pty_output :
      (List ℕ → Text) → ℕ → Bytes → InstanceActor Json v → InstanceActor Json v × List ClaudeState
  unfolding broadcast_change
  process_pty_output decode now bytes a =
      let t = process_output v bytes a.virtual_terminal in
      let (d, change) = on_output decode now a.driver bytes in
      let (b, sent) = broadcast_change change (record a { driver = d; virtual_terminal = t }) in
      (record b { enriched = b.enriched ++ (bytes, v.cursor_position t.parser) ∷ [] }, sent)

  unfoldable pub take_session : Option Text → InstanceActor Json v → InstanceActor Json v
  unfolding rotated
  take_session none a = a
  take_session (some session) a = record a {
    session_id = some session;
    rotations = rotated a.session_id session a.rotations;
  }

  unfoldable pub apply_effect :
      DriverEffect → InstanceActor Json v → InstanceActor Json v × List ClaudeState
  unfolding broadcast_change take_session
  apply_effect effect a =
      let (b, sent) = broadcast_change effect.state_change a in
      (take_session effect.session_id b, sent)

  unfoldable pub actor_step :
      (List ℕ → Text)
      → ℕ
      → ActorEvent Json
      → InstanceActor Json v
      → InstanceActor Json v × List ClaudeState
  unfolding process_pty_output apply_effect broadcast_change
  actor_step decode now (write_input line) a =
      let (d, change) = on_input now a.driver line in
      broadcast_change change (record a { driver = d })
  actor_step decode now (set_session_id session) a = (record a { session_id = some session }, [])
  actor_step decode now (set_custom_name custom) a = (record a { custom_name = custom }, [])
  actor_step decode now stop a = (record a { running = false }, [])
  actor_step decode now (pty_output bytes) a = process_pty_output decode now bytes a
  actor_step decode now (driver_signal s) a =
      let (d, effect) = on_signal now a.driver s in apply_effect effect (record a { driver = d })
  actor_step decode now tick_interval a =
      let (d, change) = on_tick now a.driver in broadcast_change change (record a { driver = d })
  actor_step decode now (viewport_updated c rows cols k) a =
      (record a { virtual_terminal = (update_viewport v c rows cols k a.virtual_terminal).0 }, [])
  actor_step decode now (client_activated c active) a =
      (record a { virtual_terminal = (set_active v c active a.virtual_terminal).0 }, [])
  actor_step decode now (client_removed c) a =
      (record a { virtual_terminal = (remove_client v c a.virtual_terminal).0 }, [])

  -- The loop of the actor, which ends when it is stopped, and all the states that it broadcasts, each with its time.
  unfoldable pub actor_run :
      (List ℕ → Text)
      → List (ℕ × ActorEvent Json)
      → InstanceActor Json v
      → InstanceActor Json v × List (ℕ × ClaudeState)
  unfolding actor_step
  actor_run decode [] a = (a, [])
  actor_run decode ((now, e) ∷ rest) a =
      let (b, sent) = actor_step decode now e a in
      let (c, later) = actor_run decode rest b in
      if b.running then (c, map (λ s. (now, s)) sent ++ later) else (b, map (λ s. (now, s)) sent)
