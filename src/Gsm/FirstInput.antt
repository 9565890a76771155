-- ===== src/Gsm/FirstInput.antt =====
-- `mark_first_input` of packages/crab_city/src/ws/state_manager.rs: the content that session
-- discovery matches.
use crabcity.Attribution.Content.{normalize_attribution_content}
use crabcity.Gsm.State.{FirstInputData}
use crabcity.Shared.{
  Bool, List, Option, Text, [], drop_last, false, has_char, if◌then◌else◌, insert, is_empty, leb,
  length, lookup, none, some, true, ℕ, ◌++◌, ◌==◌, ◌||◌, ◌∷◌,
}

abbrev pub FirstInputs : Type 0
FirstInputs = List (Text × FirstInputData)

abbrev pub first_input_prefix_cap : ℕ
first_input_prefix_cap = 20

abbrev is_newline : ℕ → Bool
is_newline c = c == 13 || c == 10

-- The part being read and the parts behind it, with one more character in front.
abbrev pub onto_first : ℕ → List Text → List Text
onto_first c [] = (c ∷ []) ∷ []
onto_first c (part ∷ parts) = (c ∷ part) ∷ parts

-- `s.split(['\r', '\n'])`.
unfoldable pub split_newlines : Text → List Text
split_newlines [] = [] ∷ []
split_newlines (c ∷ s) =
    let rest = split_newlines s in if is_newline c then [] ∷ rest else onto_first c rest

-- The loop over the parts: it stops at the cap, and skips blank parts.
unfoldable pub store_parts : List Text → List Text → List Text
store_parts [] prefixes = prefixes
store_parts (part ∷ parts) prefixes =
    let prefix = normalize_attribution_content part in
    let stop = prefixes in
    let next = store_parts parts (if is_empty prefix then prefixes else prefixes ++ prefix ∷ []) in
    if leb first_input_prefix_cap (length prefixes) then stop else next

-- The first byte of the UTF-8 form lies on the same side of each test as the first code point.
abbrev first_code : Text → ℕ
first_code [] = 0
first_code (c ∷ s) = c

abbrev has_newline : Text → Bool
has_newline content = has_char 13 content || has_char 10 content

-- A keystroke: DEL and BS remove a character, other control characters are dropped.
unfoldable pub keystroke : Text → Text → Text
keystroke content pending_line =
    if first_code content == 0x7f || first_code content == 0x08
    then drop_last pending_line
    else if leb 0x20 (first_code content)
    then pending_line ++ content
    else pending_line

-- Input to an instance below the cap.
unfoldable pub accumulate : Text → FirstInputData → FirstInputData
unfolding store_parts split_newlines keystroke
accumulate content d =
    if has_newline content
    then record d {
      content_prefixes =
          store_parts (split_newlines (d.pending_line ++ content)) d.content_prefixes;
      pending_line = [];
    }
    else record d { pending_line = keystroke content d.pending_line }

abbrev pub fresh_data : ℕ → FirstInputData
fresh_data now = record { timestamp = now; content_prefixes = []; pending_line = [] }

-- The entry of the instance, made if it is missing.
abbrev pub or_fresh : ℕ → Option FirstInputData → FirstInputData
or_fresh now none = fresh_data now
or_fresh now (some d) = d

abbrev pub data_of : ℕ → Text → FirstInputs → FirstInputData
data_of now instance_id firsts = or_fresh now (lookup instance_id firsts)

abbrev is_missing {ℓ} : {A : Type ℓ} → Option A → Bool
is_missing none = true
is_missing (some a) = false

-- One input to the data of an instance: nothing is stored once the cap is reached.
unfoldable pub marked : Text → FirstInputData → FirstInputData
unfolding accumulate
marked content d =
    if leb first_input_prefix_cap (length d.content_prefixes) then d else accumulate content d

unfoldable pub mark_first_input : ℕ → Text → Text → FirstInputs → FirstInputs × Bool
unfolding marked
mark_first_input now instance_id content firsts = (
  insert instance_id (marked content (data_of now instance_id firsts)) firsts,
  is_missing (lookup instance_id firsts),
)

unfoldable pub get_first_input_at : Text → FirstInputs → Option ℕ
get_first_input_at instance_id firsts = elim (lookup instance_id firsts) [
  | none ↦ none
  | some d ↦ some d.timestamp
]

unfoldable pub get_discovery_content_prefixes : Text → FirstInputs → List Text
get_discovery_content_prefixes instance_id firsts = elim (lookup instance_id firsts) [
  | none ↦ []
  | some d ↦ d.content_prefixes
]
