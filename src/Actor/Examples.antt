-- ===== src/Actor/Examples.antt =====
-- The theorem on the broadcasts of an actor at a turn of Claude that ends with a plain answer
-- (packages/crab_city/src/instance_actor.rs), over an emulator that shows nothing.
use crabcity.Driver.Process
use crabcity.Actor.Instance.{
  ActorEvent, actor_run, driver_signal, pty_output, spawn, stop, tick_interval, viewport_updated,
  write_input,
}
use crabcity.Actor.Recent.{Skipped, recent_bytes, recent_bytes_tail, skip_continuation}
use crabcity.Actor.Watched.{of_instance, spawn-never_completed}
use crabcity.Gsm.Attention.{kind, new_watch, observe_all}
use crabcity.Gsm.Inbox.{completed_turn}
use crabcity.Shared.{
  List, Text, [], codes, false, length, none, refl, some, ℕ, ◌++◌, ◌<◌, ◌∷◌, ◌≡◌, ◌≢◌, ◌≤◌, ◌⊎◌,
}
use crabcity.Terminal.Emulator.{Bytes, Vt100}
use crabcity.Terminal.Viewport.{web}

abbrev blank_vt : Vt100
blank_vt = record {
  Parser = ℕ × ℕ;
  new_parser = λ rows cols scrollback_lines. (rows, cols);
  process_bytes = λ p bytes. p;
  size = λ p. p;
  cursor_position = λ p. (0, 0);
  alternate_screen = λ p. false;
  contents_formatted = λ p. [];
  set_scrollback = λ p n. p;
  scrollback = λ p. 0;
  cell = λ p row col. none;
}

abbrev ascii : List ℕ → Text
ascii bytes = bytes

abbrev quoted : Text → Text
quoted s = 34 ∷ s ++ 34 ∷ []

abbrev a_turn : List (ℕ × ActorEvent ℕ)
a_turn =
    (1, pty_output (codes "Claude Code"))
    ∷ (1, viewport_updated (codes "k") 30 90 web)
    ∷ (2, write_input (codes "hi\r"))
    ∷ (3, driver_signal (Process.conversation_entry (codes "user") none none []))
    ∷ (4, pty_output (codes "Bash(ls)"))
    ∷ (5, driver_signal (Process.conversation_entry (codes "assistant") none none []))
    ∷ (6, tick_interval)
    ∷ (7, stop)
    ∷ []

spawn-never_completed_example :
    kind
      (codes "a")
      (observe_all quoted
        (of_instance
          (codes "a")
          (actor_run blank_vt ascii a_turn (spawn blank_vt (codes "a") 0 100 50)).1)
        new_watch).inbox
    ≢ some completed_turn
spawn-never_completed_example =
    spawn-never_completed blank_vt quoted ascii (codes "a") 0 100 50 a_turn

-- Two characters of two bytes each, cut to three bytes.
abbrev two_characters : Bytes
two_characters = 195 ∷ 169 ∷ 195 ∷ 168 ∷ []

recent_bytes_cut : recent_bytes 3 two_characters ≡ 195 ∷ 168 ∷ []
unfolding recent_bytes skip_continuation
recent_bytes_cut = refl

recent_bytes_tail_example :
    ((length two_characters ≤ 3) × (recent_bytes 3 two_characters ≡ two_characters))
    ⊎ ((3 < length two_characters)
        × (front : Bytes) × (tail : Bytes) × (two_characters ≡ front ++ tail)
        × (length tail ≡ 3)
        × Skipped tail (recent_bytes 3 two_characters))
recent_bytes_tail_example = recent_bytes_tail 3 two_characters
