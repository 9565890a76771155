-- ===== src/Terminal/Sgr.antt =====
-- Rows as styled text: `walk_row`, `read_row_text`, `format_row_no_cup` and the two colour helpers of
-- packages/virtual_terminal/src/lib.rs. What the code appends to its output is a list of pieces here,
-- and `print_pieces` gives the bytes.
use crabcity.Gsm.Attention.{kind}
use crabcity.Shared.{
  Bool, List, Option, Text, [], codes, decimal, false, holds, if◌then◌else◌, is_empty, map, none,
  not, some, suc, trim_end, true, zero, ℕ, ◌&&◌, ◌++◌, ◌||◌, ◌∷◌,
}
use crabcity.Terminal.Emulator.{Bytes, Cell, Color, Color-discrete, Vt100, default, idx, rgb}

pub record CellInfo : Type 0 where
  pub col : ℕ
  pub contents : Text
  pub fg : Color
  pub bg : Color
  pub bold : Bool
  pub italic : Bool
  pub underline : Bool
  pub inverse : Bool

-- The attributes that the loop carries along.
pub record Attrs : Type 0 where
  pub fg : Color
  pub bg : Color
  pub bold : Bool
  pub italic : Bool
  pub underline : Bool
  pub inverse : Bool

abbrev pub plain : Attrs
plain = record {
  fg = default;
  bg = default;
  bold = false;
  italic = false;
  underline = false;
  inverse = false;
}

abbrev pub attrs_of : CellInfo → Attrs
attrs_of c = record {
  fg = c.fg;
  bg = c.bg;
  bold = c.bold;
  italic = c.italic;
  underline = c.underline;
  inverse = c.inverse;
}

-- The escape sequences, and the contents of a cell.
pub data Piece : Type 0 where
  reset_all set_bold set_italic set_underline set_inverse : Piece
  set_fg set_bg : Color → Piece
  text : Text → Piece

abbrev pub info_of : ℕ → Cell → CellInfo
info_of col cell = record {
  col = col;
  contents = if is_empty cell.contents then codes " " else cell.contents;
  fg = cell.fgcolor;
  bg = cell.bgcolor;
  bold = cell.bold;
  italic = cell.italic;
  underline = cell.underline;
  inverse = cell.inverse;
}

-- The cells from column `col` on, with `n` columns left: missing cells and the second halves of
-- wide characters are left out.
unfoldable pub walk_from : (ℕ → Option Cell) → ℕ → ℕ → List CellInfo
walk_from cell_at col zero = []
walk_from cell_at col (suc n) =
    let rest = walk_from cell_at (suc col) n in
    elim (cell_at col) [
      | none ↦ rest
      | some cell ↦ if cell.is_wide_continuation then rest else info_of col cell ∷ rest
    ]

unfoldable pub walk_row : (v : Vt100) → v.Parser → ℕ → ℕ → List CellInfo
unfolding walk_from
walk_row v screen row cols = walk_from (v.cell screen row) 0 cols

abbrev pub concat_text : List Text → Text
concat_text [] = []
concat_text (t ∷ ts) = t ++ concat_text ts

unfoldable pub read_row_text : (v : Vt100) → v.Parser → ℕ → ℕ → Text
unfolding walk_row
read_row_text v screen row cols =
    trim_end (concat_text (map (λ c. c.contents) (walk_row v screen row cols)))

abbrev neq_bool : Bool → Bool → Bool
neq_bool true b = not b
neq_bool false b = b

abbrev pub same_color : Color → Color → Bool
same_color a b = holds (Color-discrete a b)

unfoldable pub attrs_differ : Attrs → CellInfo → Bool
attrs_differ cur cell =
    not (same_color cell.fg cur.fg)
    || not (same_color cell.bg cur.bg)
    || neq_bool cell.bold cur.bold
    || neq_bool cell.italic cur.italic
    || neq_bool cell.underline cur.underline
    || neq_bool cell.inverse cur.inverse

-- An attribute is removed, which takes a full reset.
unfoldable pub needs_reset : Attrs → CellInfo → Bool
needs_reset cur cell =
    (cur.bold && not cell.bold)
    || (cur.italic && not cell.italic)
    || (cur.underline && not cell.underline)
    || (cur.inverse && not cell.inverse)
    || (not (same_color cur.fg default) && same_color cell.fg default)
    || (not (same_color cur.bg default) && same_color cell.bg default)

abbrev pub when : Bool → Piece → List Piece
when b p = if b then p ∷ [] else []

-- The branch of a full reset.
unfoldable pub restyle : CellInfo → List Piece
restyle cell =
    (reset_all ∷ [])
    ++ when cell.bold set_bold
    ++ when cell.italic set_italic
    ++ when cell.underline set_underline
    ++ when cell.inverse set_inverse
    ++ set_fg cell.fg ∷ set_bg cell.bg ∷ []

-- The branch that only adds attributes.
unfoldable pub add_style : Attrs → CellInfo → List Piece
add_style cur cell =
    when (not cur.bold && cell.bold) set_bold
    ++ when (not cur.italic && cell.italic) set_italic
    ++ when (not cur.underline && cell.underline) set_underline
    ++ when (not cur.inverse && cell.inverse) set_inverse
    ++ when (not (same_color cur.fg cell.fg)) (set_fg cell.fg)
    ++ when (not (same_color cur.bg cell.bg)) (set_bg cell.bg)

unfoldable pub style_change : Attrs → CellInfo → List Piece
style_change cur cell =
    if attrs_differ cur cell
    then (if needs_reset cur cell then restyle cell else add_style cur cell)
    else []

-- The loop of `format_row_no_cup`.
unfoldable pub format_cells : Attrs → List CellInfo → List Piece
unfolding style_change
format_cells cur [] = []
format_cells cur (cell ∷ cells) =
    style_change cur cell ++ text cell.contents ∷ format_cells (attrs_of cell) cells

unfoldable pub format_row_no_cup : (v : Vt100) → v.Parser → ℕ → ℕ → List Piece
unfolding format_cells walk_row
format_row_no_cup v screen row cols = format_cells plain (walk_row v screen row cols)

abbrev sgr : Text → Bytes
sgr s = 27 ∷ 91 ∷ s ++ codes "m"

abbrev emit_color : Text → Text → Color → Bytes
emit_color none_code kind default = sgr none_code
emit_color none_code kind (idx n) = sgr (kind ++ codes ";5;" ++ decimal n)
emit_color none_code kind (rgb r g b) =
    sgr (kind ++ codes ";2;" ++ decimal r ++ codes ";" ++ decimal g ++ codes ";" ++ decimal b)

unfoldable pub emit_sgr_fg : Color → Bytes
emit_sgr_fg c = emit_color (codes "39") (codes "38") c

unfoldable pub emit_sgr_bg : Color → Bytes
emit_sgr_bg c = emit_color (codes "49") (codes "48") c

-- The bytes of a piece; `utf8` is the encoding of `str::as_bytes`.
unfoldable pub print_piece : (Text → Bytes) → Piece → Bytes
unfolding emit_sgr_fg emit_sgr_bg
print_piece utf8 reset_all = sgr (codes "0")
print_piece utf8 set_bold = sgr (codes "1")
print_piece utf8 set_italic = sgr (codes "3")
print_piece utf8 set_underline = sgr (codes "4")
print_piece utf8 set_inverse = sgr (codes "7")
print_piece utf8 (set_fg c) = emit_sgr_fg c
print_piece utf8 (set_bg c) = emit_sgr_bg c
print_piece utf8 (text t) = utf8 t

unfoldable pub print_pieces : (Text → Bytes) → List Piece → Bytes
unfolding print_piece
print_pieces utf8 [] = []
print_pieces utf8 (p ∷ ps) = print_piece utf8 p ++ print_pieces utf8 ps
