-- ===== src/Attribution/Content.antt =====
-- packages/crab_city/src/models.rs: `normalize_attribution_content` and
-- `attribution_content_matches`, and what the match means.
use crabcity.Shared.{
  Bool, IsPrefixOf, StartsDark, Text, [], ap, arith, false, has_char, has_char-remove_char,
  has_char-take, has_char-trim, if◌then◌else◌, inl, inr, is_empty, length, length-take, refl,
  remove_char, remove_char_absent, starts_with, starts_with_sound, starts_with_of_prefix, suc, take,
  take-StartsDark, take-trim_end-prefix, trim, trim-StartsDark, trim_dark, trim_end,
  trim_end_nonempty, true, ℕ, ◌||◌, ◌↔◌, ◌∙◌, ◌∷◌, ◌≡◌, ◌≤◌, ◌⊎◌,
}

abbrev pub attribution_content_prefix_len : ℕ
attribution_content_prefix_len = 100

unfoldable pub normalize_attribution_content : Text → Text
normalize_attribution_content content =
    take attribution_content_prefix_len (trim (remove_char 13 content))

unfoldable pub attribution_content_matches : Text → Text → Bool
attribution_content_matches stored_content entry_content =
    let stored = normalize_attribution_content stored_content in
    let entry = normalize_attribution_content entry_content in
    if is_empty stored || is_empty entry
    then false
    else starts_with stored entry || starts_with entry stored

-- Stored and entered text match exactly when neither normal form is empty and one of the two is a
-- prefix of the other.
pub attribution_content_matches_iff :
    (stored entry : Text)
    → (attribution_content_matches stored entry ≡ true) ↔ (
        (is_empty (normalize_attribution_content stored) ≡ false)
        × (is_empty (normalize_attribution_content entry) ≡ false)
        × (IsPrefixOf (normalize_attribution_content entry) (normalize_attribution_content stored)
            ⊎ IsPrefixOf
                (normalize_attribution_content stored)
                (normalize_attribution_content entry)))
unfolding attribution_content_matches
attribution_content_matches_iff stored entry = (
  λ h. ground (arith, starts_with_sound n m, starts_with_sound m n),
  λ h. elim h.2 [
    | inl p ↦ ground (arith, h.0, h.1, starts_with_of_prefix m n p)
    | inr p ↦ ground (arith, h.0, h.1, starts_with_of_prefix n m p)
  ],
)
  where
    n : Text
    n = normalize_attribution_content stored

    m : Text
    m = normalize_attribution_content entry

-- A normal form has at most 100 characters, no carriage return, and no white space in front.
pub normalize_bounds :
    (content : Text)
    → (length (normalize_attribution_content content) ≤ 100)
      × (has_char 13 (normalize_attribution_content content) ≡ false)
      × StartsDark (normalize_attribution_content content)
unfolding normalize_attribution_content
normalize_bounds content = (
  omega (arith, length-take 100 (trim (remove_char 13 content))),
  has_char-take 13 100 _ (has_char-trim 13 _ (has_char-remove_char 13 content)),
  take-StartsDark 100 _ (trim-StartsDark (remove_char 13 content)),
)

-- Normalising twice only cuts white space off the end.
normalize-normalize :
    (content : Text)
    → let s = normalize_attribution_content content in
      normalize_attribution_content s ≡ take 100 (trim_end s)
unfolding normalize_attribution_content
normalize-normalize content =
    let b = normalize_bounds content in
    rw (remove_char_absent 13 (normalize_attribution_content content) b.1)
      (ap (take 100) (trim_dark (normalize_attribution_content content) b.2))

is_empty-take : (n : ℕ) (s : Text) → is_empty (take (suc n) s) ≡ is_empty s
is_empty-take n [] = refl
is_empty-take n (c ∷ s) = refl

still_nonempty :
    (content : Text)
    → is_empty (normalize_attribution_content content) ≡ false
    → is_empty (normalize_attribution_content (normalize_attribution_content content)) ≡ false
still_nonempty content h =
    let s = normalize_attribution_content content in
    rw (normalize-normalize content)
      (is_empty-take 99 (trim_end s) ∙ (trim_end_nonempty s (normalize_bounds content).2 ∙ h))

-- What was stored in normal form still matches the text that it was made from, if anything of it
-- was stored, also where the cut at 100 characters fell on white space.
pub normalize-matches :
    (content : Text)
    → is_empty (normalize_attribution_content content) ≡ false
    → attribution_content_matches (normalize_attribution_content content) content ≡ true
normalize-matches content h =
    (attribution_content_matches_iff (normalize_attribution_content content) content).1 (
      still_nonempty content h,
      h,
      inr (rw (normalize-normalize content) (take-trim_end-prefix 100 _)),
    )
