-- ===== src/Gsm/Discovery.antt =====
-- Laws of the content that session discovery matches
-- (packages/crab_city/src/ws/state_manager.rs).
use crabcity.Attribution.Content.{normalize_attribution_content, normalize_bounds}
use crabcity.Gsm.FirstInput.{
  FirstInputs, accumulate, data_of, first_input_prefix_cap, mark_first_input, marked,
  split_newlines, store_parts,
}
use crabcity.Gsm.State.{FirstInputData}
use crabcity.Shared.{
  All, All-snoc, Bool, Bool-cases, List, Option-cases, StartsDark, Text, [], ap, append-nil,
  append_assoc, arith, false, has_char, has_char-append, inl, inr, is_empty, leb, length,
  length-append, lookup, lookup-insert, not, refl, some, subst, text_dec, true, ℕ, ◌&&◌, ◌++◌, ◌==◌,
  ◌||◌, ◌∙◌, ◌∷◌, ◌≡◌, ◌≤◌,
}

-- At most twenty prefixes, each with a first character, which is no white space, and of at most 100
-- characters.
abbrev pub IsStored : List Text → Type 0
IsStored prefixes =
    (length prefixes ≤ 20)
    × All (λ p. (is_empty p ≡ false) × StartsDark p × (length p ≤ 100)) prefixes

store_parts-IsStored :
    (parts prefixes : List Text) → IsStored prefixes → IsStored (store_parts parts prefixes)
unfolding store_parts
store_parts-IsStored [] prefixes v = v
store_parts-IsStored (part ∷ parts) prefixes v =
    elim (Bool-cases (leb first_input_prefix_cap (length prefixes))) [
      | inl at_cap ↦ rw at_cap v
      | inr room ↦ rw room (elim (Bool-cases (is_empty (normalize_attribution_content part))) [
        | inl blank ↦ rw blank (store_parts-IsStored parts prefixes v)
        | inr dark ↦
            let p = normalize_attribution_content part in
            rw dark (
              store_parts-IsStored parts (prefixes ++ p ∷ []) (
                ground (arith, length-append prefixes (p ∷ [])),
                All-snoc _ prefixes p v.1
                    (dark, (normalize_bounds part).2, (normalize_bounds part).0),
              ))
      ])
    ]

accumulate-IsStored :
    (content : Text) (d : FirstInputData)
    → IsStored d.content_prefixes
    → IsStored (accumulate content d).content_prefixes
unfolding accumulate
accumulate-IsStored content d v = elim (Bool-cases (has_char 13 content || has_char 10 content)) [
  | inl line ↦
      rw line
        (store_parts-IsStored (split_newlines (d.pending_line ++ content)) d.content_prefixes v)
  | inr key ↦ rw key v
]

-- Every instance has at most twenty stored prefixes, and each is stored as above.
abbrev pub AreStored : FirstInputs → Type 0
AreStored firsts =
    (i : Text) (d : FirstInputData) → lookup i firsts ≡ some d → IsStored d.content_prefixes

data_of-IsStored :
    (now : ℕ) (i : Text) (firsts : FirstInputs)
    → AreStored firsts
    → IsStored (data_of now i firsts).content_prefixes
data_of-IsStored now i firsts v = elim (Option-cases (lookup i firsts)) [
  | inl missing ↦ rw missing (omega arith, tt)
  | inr (d, held) ↦ rw held (v i d held)
]

marked-IsStored :
    (content : Text) (d : FirstInputData)
    → IsStored d.content_prefixes
    → IsStored (marked content d).content_prefixes
unfolding marked
marked-IsStored content d v =
    elim (Bool-cases (leb first_input_prefix_cap (length d.content_prefixes))) [
      | inl at_cap ↦ rw at_cap v
      | inr room ↦ rw room (accumulate-IsStored content d v)
    ]

-- If every instance has at most twenty stored prefixes, each of at least one and at most 100
-- characters and with no white space in front, then so it is after recording any input.
pub mark_first_input-AreStored :
    (now : ℕ) (i content : Text) (firsts : FirstInputs)
    → AreStored firsts
    → AreStored (mark_first_input now i content firsts).0
unfolding mark_first_input
mark_first_input-AreStored now i content firsts v j d h = elim (text_dec i j) [
  | yes same ↦
      let e : marked content (data_of now i firsts) ≡ d =
        ground (arith, lookup-insert i j (marked content (data_of now i firsts)) firsts) in
      subst (λ (x : FirstInputData). IsStored x.content_prefixes) e
        (marked-IsStored content (data_of now i firsts) (data_of-IsStored now i firsts v))
  | no ne ↦ v j d (ground (arith, lookup-insert i j (marked content (data_of now i firsts)) firsts))
]

-- A character that a keystroke adds to the line.
abbrev pub is_printable : ℕ → Bool
is_printable c = leb 0x20 c && not (c == 0x7f)

-- The line typed one character at a time.
unfoldable pub type_line : Text → FirstInputData → FirstInputData
type_line [] d = d
type_line (c ∷ s) d = type_line s (accumulate (c ∷ []) d)

accumulate-printable :
    (c : ℕ) (d : FirstInputData)
    → is_printable c ≡ true
    → accumulate (c ∷ []) d ≡ record d { pending_line = d.pending_line ++ c ∷ [] }
unfolding accumulate has_char
accumulate-printable c d h = ground arith

type_line-pending :
    (s : Text) (d : FirstInputData)
    → All (λ c. is_printable c ≡ true) s
    → type_line s d ≡ record d { pending_line = d.pending_line ++ s }
unfolding type_line
type_line-pending [] d h = rw append-nil refl
type_line-pending (c ∷ s) d h = rw (accumulate-printable c d h.0) (
    type_line-pending s (record d { pending_line = d.pending_line ++ c ∷ [] }) h.1
    ∙ ap (λ line. record d { pending_line = line }) (append_assoc d.pending_line (c ∷ []) s))

-- A line of printable characters leaves the same data whether it comes as keystrokes and then a
-- carriage return, or as one message that ends in the carriage return.
pub accumulate-type_line :
    (s : Text) (d : FirstInputData)
    → All (λ c. is_printable c ≡ true) s
    → accumulate (13 ∷ []) (type_line s d) ≡ accumulate (s ++ 13 ∷ []) d
unfolding accumulate has_char
accumulate-type_line s d h =
    rw (type_line-pending s d h) (
      rw (has_char-append 13 s (13 ∷ [])) (ground (arith, append_assoc d.pending_line s (13 ∷ []))))
