-- ===== src/Auth/Texts.antt =====
-- The comparison of tokens, names and paths in packages/crab_city/src/auth.rs, as equality.
use crabcity.Shared.{Text, eq_text, false, holds, refl, text_dec, true, ◌≡◌, ◌≢◌}

pub eq_text-true : (s t : Text) → eq_text s t ≡ true → s ≡ t
unfolding text_dec
eq_text-true s t e =
    elim (text_dec s t) as (λ d. holds d ≡ true → s ≡ t) [ yes p ↦ λ _. p | no ne ↦ λ h. cc ] e

pub eq_text_self : (s : Text) → eq_text s s ≡ true
unfolding text_dec
eq_text_self s = go (text_dec s s)
  where
    go : (d : Dec (s ≡ s)) → holds d ≡ true
    go (yes p) = refl
    go (no ne) = absurd (ne refl)

pub eq_text_other : (s t : Text) → s ≢ t → eq_text s t ≡ false
unfolding text_dec
eq_text_other s t ne = go (text_dec s t)
  where
    go : (d : Dec (s ≡ t)) → holds d ≡ false
    go (yes p) = absurd (ne p)
    go (no other) = refl
