-- ===== src/Terminal/Emulator.antt =====
-- The terminal emulator that packages/virtual_terminal/src/lib.rs builds on: the package vt100, as a
-- parameter, with what the code relies on.
use crabcity.Shared.{Bool, List, Option, Text, min, ℕ, ℕ_discrete, ◌-◌, ◌<◌, ◌≡◌, ◌≤◌}

abbrev pub Bytes : Type 0
Bytes = List ℕ

-- `vt100::Color`.
pub data Color : Type 0 where
  default : Color
  idx : ℕ → Color
  rgb : ℕ → ℕ → ℕ → Color

pub Color-discrete : Discrete Color
Color-discrete = hlevel ℕ_discrete

-- `vt100::Cell`, by what the code asks of it.
pub record Cell : Type 0 where
  pub contents : Text
  pub is_wide_continuation : Bool
  pub fgcolor : Color
  pub bgcolor : Color
  pub bold : Bool
  pub italic : Bool
  pub underline : Bool
  pub inverse : Bool

-- `vt100::Parser` and its screen. A number of rows or columns is a `u16`.
pub record Vt100 : Type 1 where
  pub Parser : Type 0
  pub new_parser : (rows cols scrollback_lines : ℕ) → Parser
  pub process_bytes : Parser → Bytes → Parser
  pub size : Parser → ℕ × ℕ
  pub cursor_position : Parser → ℕ × ℕ
  pub alternate_screen : Parser → Bool
  pub contents_formatted : Parser → Bytes
  pub set_scrollback : Parser → ℕ → Parser
  pub scrollback : Parser → ℕ
  pub cell : Parser → (row col : ℕ) → Option Cell

-- `usize::MAX`.
abbrev pub usize_max : ℕ
usize_max = 18446744073709551615

-- The documented behaviour: the size is the one given at the start, and is changed neither by
-- output nor by scrolling; an offset is clamped to the lines that the scrollback has; and an offset
-- overrides the one before, and moves the rows of the screen down over the scrollback by so many
-- lines.
pub record IsEmulator (v : Vt100) : Type 0 where
  pub size_new : (rows cols n : ℕ) → v.size (v.new_parser rows cols n) ≡ (rows, cols)
  pub size_process : (p : v.Parser) (b : Bytes) → v.size (v.process_bytes p b) ≡ v.size p
  pub size_scroll : (p : v.Parser) (n : ℕ) → v.size (v.set_scrollback p n) ≡ v.size p
  pub depth : v.Parser → ℕ
  pub depth_usize : (p : v.Parser) → depth p ≤ usize_max
  pub scroll_clamped :
      (p : v.Parser) (n : ℕ) → v.scrollback (v.set_scrollback p n) ≡ min n (depth p)
  pub scroll_twice :
      (p : v.Parser) (m n : ℕ) → v.set_scrollback (v.set_scrollback p m) n ≡ v.set_scrollback p n
  pub scroll_same : (p : v.Parser) → v.set_scrollback p (v.scrollback p) ≡ p
  pub scroll_rows :
      (p : v.Parser) (n row col : ℕ)
      → row < n
      → n ≤ depth p
      → row < (v.size p).0
      → v.cell (v.set_scrollback p n) row col ≡ v.cell (v.set_scrollback p (n - row)) 0 col
