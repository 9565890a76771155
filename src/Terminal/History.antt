-- ===== src/Terminal/History.antt =====
-- The replay shows the scrollback line by line, and leaves the emulator as it was
-- (packages/virtual_terminal/src/lib.rs).
use crabcity.Shared.{
  Option, Text, [], ap, append_assoc, arith, codes, fun_ext, if◌then◌else◌, ltb, min, refl, some,
  subst, suc, sym, zero, ℕ, ◌++◌, ◌+◌, ◌-◌, ◌<◌, ◌∙◌, ◌∷◌, ◌≡◌, ◌≤◌,
}
use crabcity.Terminal.Emulator.{Bytes, Cell, IsEmulator, Vt100, usize_max}
use crabcity.Terminal.Scrollback.{
  append_scrollback_flush, emit_row, emit_rows, live_again, page_before, render_pages,
  render_scrollback, render_total, replay, replay_from, scrollback_depth,
}
use crabcity.Terminal.Sgr.{
  format_cells, format_row_no_cup, plain, print_pieces, walk_from, walk_row,
}
use crabcity.Terminal.Virtual.{VirtualTerminal, render_visible_screen}

module _ (v : Vt100) (law : IsEmulator v) (utf8 : Text → Bytes) where
  open v use {Parser, size, set_scrollback, scrollback}
  open law use {depth}

  -- The emulator stands at the live screen.
  abbrev pub IsLive : Parser → Type 0
  IsLive p = scrollback p ≡ 0

  live_same : (p : Parser) → IsLive p → set_scrollback p 0 ≡ p
  live_same p h = subst (λ (n : ℕ). set_scrollback p n ≡ p) h (law.scroll_same p)

  scrollback_depth_lem : (p : Parser) → IsLive p → scrollback_depth v p ≡ (p, depth p)
  unfolding scrollback_depth
  scrollback_depth_lem p h =
      rw (law.scroll_twice p usize_max 0, live_same p h, law.scroll_clamped p usize_max)
        (ap (λ (n : ℕ). (p, n)) (omega (arith, law.depth_usize p)))

  -- The `n` youngest lines of the scrollback, from the oldest of them on: line `k` is the first row
  -- of the screen at offset `k`.
  abbrev pub history : ℕ → ℕ → Parser → Bytes
  history cols zero p = []
  history cols (suc k) p = emit_row v utf8 cols (set_scrollback p (suc k)) 0 ++ history cols k p

  emit_row_shift :
      (cols : ℕ) (p : Parser) (n row : ℕ)
      → row < n
      → n ≤ depth p
      → row < (size p).0
      → emit_row v utf8 cols (set_scrollback p n) row
        ≡ emit_row v utf8 cols (set_scrollback p (n - row)) 0
  unfolding emit_row format_row_no_cup walk_row
  emit_row_shift cols p n row a b c =
      ap
        (λ (f : ℕ → Option Cell).
          print_pieces utf8 (format_cells plain (walk_from f 0 cols))
          ++ 27 ∷ codes "[0m"
          ++ 13 ∷ 10 ∷ [])
        (fun_ext (λ col. law.scroll_rows p n row col a b c))

  history_step :
      (cols k n : ℕ) (p : Parser)
      → n ≡ suc k
      → history cols n p ≡ emit_row v utf8 cols (set_scrollback p n) 0 ++ history cols k p
  history_step cols k n p e = rw e refl

  -- A page of `m` rows is so much of the history.
  emit_rows-history :
      (cols : ℕ) (p : Parser) (n row m : ℕ)
      → row + m ≤ n
      → n ≤ depth p
      → row + m ≤ (size p).0
      → emit_rows v utf8 cols (set_scrollback p n) row m ++ history cols (n - row - m) p
        ≡ history cols (n - row) p
  unfolding emit_rows
  emit_rows-history cols p n row zero a b c = ap (λ (k : ℕ). history cols k p) (omega arith)
  emit_rows-history cols p n row (suc m) a b c =
      append_assoc (emit_row v utf8 cols (set_scrollback p n) row)
        (emit_rows v utf8 cols (set_scrollback p n) (suc row) m) (history cols (n - row - suc m) p)
      ∙ (ap
            (λ (k : ℕ).
              emit_row v utf8 cols (set_scrollback p n) row
              ++ (emit_rows v utf8 cols (set_scrollback p n) (suc row) m ++ history cols k p))
            left
          ∙ (ap (λ (b : Bytes). emit_row v utf8 cols (set_scrollback p n) row ++ b)
                (emit_rows-history cols p n (suc row) m (omega arith) b (omega arith))
              ∙ (ap (λ (b : Bytes). b ++ history cols (n - suc row) p)
                    (emit_row_shift cols p n row (omega arith) b (omega arith))
                  ∙ sym (history_step cols (n - suc row) (n - row) p (omega arith)))))
    where
      left : n - row - suc m ≡ n - suc row - m
      left = omega arith

  -- An emulator that shows what `p` shows once the offset is set.
  abbrev SameScreen : Parser → Parser → Type 0
  SameScreen p q = (n : ℕ) → set_scrollback q n ≡ set_scrollback p n

  shifted-SameScreen : (p q : Parser) (k : ℕ) → SameScreen p q → SameScreen p (set_scrollback q k)
  shifted-SameScreen p q k h n = law.scroll_twice q k n ∙ h n

  -- With a row on the screen the loop ends, and emits the history.
  render_pages-history :
      (fuel cols k : ℕ) (p q : Parser)
      → k ≤ fuel
      → 0 < (size p).0
      → k ≤ depth p
      → SameScreen p q
      → (last : Parser) × (render_pages v utf8 (size p).0 cols fuel k q
          ≡ some (last, history cols k p))
        × SameScreen p last
  unfolding render_pages page_before
  render_pages-history fuel cols zero p q enough tall deep same = (q, refl, same)
  render_pages-history zero cols (suc k) p q enough tall deep same = absurd (omega arith)
  render_pages-history (suc fuel) cols (suc k) p q enough tall deep same =
      let rows = (size p).0 in
      let (last, rest, ends) =
        render_pages-history fuel cols (suc k - rows) p (set_scrollback q (suc k)) (omega arith)
          tall (omega arith) (shifted-SameScreen p q (suc k) same) in
      (
        last,
        ap (page_before v (emit_rows v utf8 cols (set_scrollback q (suc k)) 0 (min (suc k) rows)))
              rest
            ∙ ap (λ (b : Bytes). some (last, b)) page,
        ends,
      )
    where
      rows' : ℕ
      rows' = (size p).0

      below : suc k - rows' ≡ suc k - 0 - min (suc k) rows'
      below = omega arith

      top : suc k - 0 ≡ suc k
      top = omega arith

      page :
          emit_rows v utf8 cols (set_scrollback q (suc k)) 0 (min (suc k) rows')
            ++ history cols (suc k - rows') p
          ≡ history cols (suc k) p
      page =
          ap
            (λ (s : Parser).
              emit_rows v utf8 cols s 0 (min (suc k) rows') ++ history cols (suc k - rows') p)
            (same (suc k))
          ∙ (ap
                (λ (j : ℕ).
                  emit_rows v utf8 cols (set_scrollback p (suc k)) 0 (min (suc k) rows')
                  ++ history cols j p)
                below
              ∙ (emit_rows-history cols p (suc k) 0 (min (suc k) rows') (omega arith) deep
                    (omega arith)
                  ∙ ap (λ (j : ℕ). history cols j p) top))

  render_total-history :
      (p : Parser) (n : ℕ)
      → IsLive p
      → 0 < (size p).0
      → n ≡ depth p
      → render_total v utf8 (p, n) ≡ some (p, n, history (size p).1 n p)
  unfolding render_total live_again
  render_total-history p zero live tall e = refl
  render_total-history p (suc n) live tall e =
      let (last, rest, ends) =
        render_pages-history (suc n) (size p).1 (suc n) p p (omega arith) tall (omega arith)
          (λ k. refl) in
      ap (live_again v (suc n)) rest
      ∙ ap (λ (q : Parser). some (q, suc n, history (size p).1 (suc n) p))
          (ends 0 ∙ live_same p live)

  -- With a row on the screen, the scrollback of a live emulator is emitted whole, each line once,
  -- from the oldest to the youngest, and the emulator is live again and otherwise as before.
  pub render_scrollback-history :
      (p : Parser)
      → IsLive p
      → 0 < (size p).0
      → render_scrollback v utf8 p ≡ some (p, depth p, history (size p).1 (depth p) p)
  unfolding render_scrollback
  render_scrollback-history p live tall =
      ap (render_total v utf8) (scrollback_depth_lem p live)
      ∙ render_total-history p (depth p) live tall refl

  -- A replay for a new client, from a live emulator with a row on its screen, is the whole scrollback
  -- from the oldest to the youngest line, then, if there was any, the line feeds that push it off the
  -- client's screen, then the visible screen; and the terminal is exactly as it was before.
  pub replay-history :
      (client_rows : ℕ) (t : VirtualTerminal v)
      → IsLive t.parser
      → 0 < (size t.parser).0
      → replay v utf8 client_rows t
        ≡ some (
          t,
          history (size t.parser).1 (depth t.parser) t.parser
              ++ (if ltb 0 (depth t.parser)
                  then append_scrollback_flush v (depth t.parser) client_rows
                  else [])
              ++ render_visible_screen v t.parser,
        )
  unfolding replay replay_from
  replay-history client_rows t live tall =
      ap (λ (found : Parser × ℕ). replay_from v client_rows t (render_scrollback v utf8 found.0))
        (scrollback_depth_lem t.parser live)
      ∙ ap (replay_from v client_rows t) (render_scrollback-history t.parser live tall)
