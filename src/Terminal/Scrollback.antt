-- ===== src/Terminal/Scrollback.antt =====
-- The scrollback and the replay for a new client (packages/virtual_terminal/src/lib.rs). A function
-- that shifts the scrollback of the emulator returns the emulator beside its result.
use crabcity.Diff.Parse.{total}
use crabcity.Shared.{
  List, Option, Text, [], codes, if◌then◌else◌, ltb, min, none, some, suc, zero, ℕ, ◌++◌, ◌-◌, ◌∷◌,
}
use crabcity.Terminal.Emulator.{Bytes, Vt100, usize_max}
use crabcity.Terminal.Sgr.{format_row_no_cup, print_pieces, read_row_text}
use crabcity.Terminal.Virtual.{VirtualTerminal, cursor_to, render_visible_screen}

module _ (v : Vt100) where
  open v use {Parser, size, set_scrollback, scrollback}

  unfoldable pub scrollback_depth : Parser → Parser × ℕ
  scrollback_depth p =
      let shifted = set_scrollback p usize_max in (set_scrollback shifted 0, scrollback shifted)

  -- A row as it is emitted: its pieces, then "\x1b[0m\r\n".
  unfoldable pub emit_row : (Text → Bytes) → ℕ → Parser → ℕ → Bytes
  emit_row utf8 cols p row =
      print_pieces utf8 (format_row_no_cup v p row cols) ++ 27 ∷ codes "[0m" ++ 13 ∷ 10 ∷ []

  -- `n` rows from row `row` on.
  unfoldable pub emit_rows : (Text → Bytes) → ℕ → Parser → ℕ → ℕ → Bytes
  unfolding emit_row
  emit_rows utf8 cols p row zero = []
  emit_rows utf8 cols p row (suc n) = emit_row utf8 cols p row ++ emit_rows utf8 cols p (suc row) n

  -- A page before what the later rounds emit.
  unfoldable pub page_before : Bytes → Option (Parser × Bytes) → Option (Parser × Bytes)
  page_before page none = none
  page_before page (some (last, more)) = some (last, page ++ more)

  -- The `while remaining > 0` loop, page by page; `none` means that the fuel ran out.
  unfoldable pub render_pages :
      (Text → Bytes) → (rows cols : ℕ) → ℕ → ℕ → Parser → Option (Parser × Bytes)
  unfolding page_before
  render_pages utf8 rows cols fuel zero p = some (p, [])
  render_pages utf8 rows cols zero (suc k) p = none
  render_pages utf8 rows cols (suc fuel) (suc k) p =
      let shifted = set_scrollback p (suc k) in
      page_before (emit_rows utf8 cols shifted 0 (min (suc k) rows))
        (render_pages utf8 rows cols fuel (suc k - rows) shifted)

  -- The live view again, beside what was emitted.
  unfoldable pub live_again : ℕ → Option (Parser × Bytes) → Option (Parser × ℕ × Bytes)
  live_again total none = none
  live_again total (some (last, bytes)) = some (set_scrollback last 0, total, bytes)

  -- The lines emitted, and their bytes. A page holds at least one line if the screen has a row, so
  -- as many rounds as there are lines are enough.
  unfoldable pub render_total : (Text → Bytes) → Parser × ℕ → Option (Parser × ℕ × Bytes)
  unfolding live_again
  render_total utf8 (q, zero) = some (q, 0, [])
  render_total utf8 (q, suc n) =
      live_again (suc n) (render_pages utf8 (size q).0 (size q).1 (suc n) (suc n) q)

  unfoldable pub render_scrollback : (Text → Bytes) → Parser → Option (Parser × ℕ × Bytes)
  unfolding scrollback_depth render_total
  render_scrollback utf8 p = render_total utf8 (scrollback_depth p)

  abbrev newlines : ℕ → Bytes
  newlines zero = []
  newlines (suc n) = 10 ∷ newlines n

  -- "\x1b[{client_rows};1H", and the line feeds that scroll the client.
  unfoldable pub append_scrollback_flush : ℕ → ℕ → Bytes
  append_scrollback_flush scrollback_lines client_rows =
      cursor_to client_rows 1 ++ newlines (min scrollback_lines (client_rows - 1))

  -- The rest of the replay, behind the scrollback that was emitted.
  unfoldable pub replay_from :
      ℕ → VirtualTerminal v → Option (Parser × ℕ × Bytes) → Option (VirtualTerminal v × Bytes)
  replay_from client_rows t none = none
  replay_from client_rows t (some (q, scrollback_lines, bytes)) = some (
    record t { parser = q },
    bytes
        ++ (if ltb 0 scrollback_lines
            then append_scrollback_flush scrollback_lines client_rows
            else [])
        ++ render_visible_screen v q,
  )

  unfoldable pub replay :
      (Text → Bytes) → ℕ → VirtualTerminal v → Option (VirtualTerminal v × Bytes)
  unfolding scrollback_depth replay_from
  replay utf8 client_rows t =
      let (p, sb_depth) = scrollback_depth t.parser in
      replay_from client_rows t (render_scrollback utf8 p)

  -- The scrollback rows of `lines`: offsets from the oldest line down to 1, row 0 of each.
  unfoldable pub history_lines : ℕ → ℕ → Parser → Parser × List Text
  history_lines cols zero p = (p, [])
  history_lines cols (suc k) p =
      let shifted = set_scrollback p (suc k) in
      let (last, rest) = history_lines cols k shifted in
      (last, read_row_text v shifted 0 cols ∷ rest)

  unfoldable pub screen_lines : ℕ → ℕ → ℕ → Parser → List Text
  screen_lines cols row zero p = []
  screen_lines cols row (suc n) p = read_row_text v p row cols ∷ screen_lines cols (suc row) n p

  unfoldable pub lines : VirtualTerminal v → VirtualTerminal v × List Text
  unfolding scrollback_depth history_lines screen_lines
  lines t =
      let cols = (size t.parser).1 in
      let (p, depth) = scrollback_depth t.parser in
      let (last, above) = history_lines cols depth p in
      let restored = set_scrollback last 0 in
      (
        record t { parser = restored },
        above ++ screen_lines (size restored).1 0 (size restored).0 restored,
      )
