-- ===== src/Terminal/Styles.antt =====
-- What a terminal shows of a formatted row (packages/virtual_terminal/src/lib.rs).
use crabcity.Shared.{
  Bool, List, Text, [], ap, arith, false, if◌then◌else◌, map, refl, true, ◌++◌, ◌∙◌, ◌∷◌, ◌≡◌,
}
use crabcity.Terminal.Sgr.{
  Attrs, CellInfo, Piece, add_style, attrs_differ, attrs_of, format_cells, needs_reset, plain,
  reset_all, restyle, set_bg, set_bold, set_fg, set_inverse, set_italic, set_underline,
  style_change, text, when,
}

-- How a terminal takes a piece: an attribute changes the style of the text behind it.
abbrev pub restyled : Attrs → Piece → Attrs
restyled a reset_all = plain
restyled a set_bold = record a { bold = true }
restyled a set_italic = record a { italic = true }
restyled a set_underline = record a { underline = true }
restyled a set_inverse = record a { inverse = true }
restyled a (set_fg c) = record a { fg = c }
restyled a (set_bg c) = record a { bg = c }
restyled a (text t) = a

-- The texts that a terminal shows, each in its style.
abbrev pub show : Attrs → List Piece → List (Attrs × Text)
show a [] = []
show a (text t ∷ ps) = (a, t) ∷ show a ps
show a (p ∷ ps) = show (restyled a p) ps

-- The style behind a list of attributes.
abbrev final : Attrs → List Piece → Attrs
final a [] = a
final a (p ∷ ps) = final (restyled a p) ps

abbrev IsSilent : List Piece → Type 0
IsSilent [] = Unit {0}
IsSilent (text t ∷ ps) = ⊥
IsSilent (p ∷ ps) = IsSilent ps

show-IsSilent :
    (a : Attrs) (ps qs : List Piece) → IsSilent ps → show a (ps ++ qs) ≡ show (final a ps) qs
show-IsSilent a [] qs h = refl
show-IsSilent a (text t ∷ ps) qs h = absurd h
show-IsSilent a (reset_all ∷ ps) qs h = show-IsSilent plain ps qs h
show-IsSilent a (set_bold ∷ ps) qs h = show-IsSilent (restyled a set_bold) ps qs h
show-IsSilent a (set_italic ∷ ps) qs h = show-IsSilent (restyled a set_italic) ps qs h
show-IsSilent a (set_underline ∷ ps) qs h = show-IsSilent (restyled a set_underline) ps qs h
show-IsSilent a (set_inverse ∷ ps) qs h = show-IsSilent (restyled a set_inverse) ps qs h
show-IsSilent a (set_fg c ∷ ps) qs h = show-IsSilent (restyled a (set_fg c)) ps qs h
show-IsSilent a (set_bg c ∷ ps) qs h = show-IsSilent (restyled a (set_bg c)) ps qs h

IsSilent-append : (ps qs : List Piece) → IsSilent ps → IsSilent qs → IsSilent (ps ++ qs)
IsSilent-append [] qs h k = k
IsSilent-append (text t ∷ ps) qs h k = absurd h
IsSilent-append (reset_all ∷ ps) qs h k = IsSilent-append ps qs h k
IsSilent-append (set_bold ∷ ps) qs h k = IsSilent-append ps qs h k
IsSilent-append (set_italic ∷ ps) qs h k = IsSilent-append ps qs h k
IsSilent-append (set_underline ∷ ps) qs h k = IsSilent-append ps qs h k
IsSilent-append (set_inverse ∷ ps) qs h k = IsSilent-append ps qs h k
IsSilent-append (set_fg c ∷ ps) qs h k = IsSilent-append ps qs h k
IsSilent-append (set_bg c ∷ ps) qs h k = IsSilent-append ps qs h k

final-append : (a : Attrs) (ps qs : List Piece) → final a (ps ++ qs) ≡ final (final a ps) qs
final-append a [] qs = refl
final-append a (p ∷ ps) qs = final-append (restyled a p) ps qs

-- A piece that is emitted under a test, in front of others.
final-when :
    (a : Attrs) (b : Bool) (p : Piece) (qs : List Piece)
    → final a (when b p ++ qs) ≡ final (if b then restyled a p else a) qs
final-when a true p qs = refl
final-when a false p qs = refl

IsSilent-when :
    (b : Bool) (p : Piece) (qs : List Piece)
    → IsSilent (p ∷ [])
    → IsSilent qs
    → IsSilent (when b p ++ qs)
IsSilent-when true p qs h k = IsSilent-append (p ∷ []) qs h k
IsSilent-when false p qs h k = k

restyle-final : (cur : Attrs) (cell : CellInfo) → final cur (restyle cell) ≡ attrs_of cell
unfolding restyle
restyle-final cur cell = ground arith

add_style-final :
    (cur : Attrs) (cell : CellInfo)
    → needs_reset cur cell ≡ false
    → final cur (add_style cur cell) ≡ attrs_of cell
unfolding add_style needs_reset
add_style-final cur cell h = ground arith

restyle-IsSilent : (cell : CellInfo) → IsSilent (restyle cell)
unfolding restyle
restyle-IsSilent cell = ground arith

add_style-IsSilent : (cur : Attrs) (cell : CellInfo) → IsSilent (add_style cur cell)
unfolding add_style
add_style-IsSilent cur cell = ground arith

differ-false : (cur : Attrs) (cell : CellInfo) → attrs_differ cur cell ≡ false → cur ≡ attrs_of cell
unfolding attrs_differ
differ-false cur cell h = ground arith

style_change-IsSilent : (cur : Attrs) (cell : CellInfo) → IsSilent (style_change cur cell)
unfolding style_change
style_change-IsSilent cur cell = ground (arith, restyle-IsSilent cell, add_style-IsSilent cur cell)

style_change-final :
    (cur : Attrs) (cell : CellInfo) → final cur (style_change cur cell) ≡ attrs_of cell
unfolding style_change
style_change-final cur cell =
    ground (arith, restyle-final cur cell, add_style-final cur cell, differ-false cur cell)

-- A terminal in the current style shows the text of each cell, in order, in the style of that cell.
pub show-format_cells :
    (cur : Attrs) (cells : List CellInfo)
    → show cur (format_cells cur cells) ≡ map (λ c. (attrs_of c, c.contents)) cells
unfolding format_cells
show-format_cells cur [] = refl
show-format_cells cur (cell ∷ cells) =
    show-IsSilent cur (style_change cur cell) _ (style_change-IsSilent cur cell)
    ∙ rw (style_change-final cur cell)
        (ap (◌∷◌ (attrs_of cell, cell.contents)) (show-format_cells (attrs_of cell) cells))
