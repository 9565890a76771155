-- ===== src/Actor/Recent.antt =====
-- The recent output that a client asks for: `handle_vt_command` of
-- packages/crab_city/src/instance_actor.rs, where the replay is cut to a limit in bytes.
use crabcity.Shared.{
  All, Bool, Bool-cases, [], ap, arith, drop, false, if◌then◌else◌, inl, inr, length, length-append,
  ltb, min, refl, suc, true, zero, ℕ, ◌%◌, ◌++◌, ◌-◌, ◌/◌, ◌<◌, ◌==◌, ◌∷◌, ◌≡◌, ◌≤◌, ◌⊎◌,
}
use crabcity.Terminal.Emulator.{Bytes}

-- The two high bits are 10: a byte that continues a character of UTF-8.
abbrev pub is_continuation : ℕ → Bool
is_continuation b = b / 64 % 4 == 2

-- The loop that moves the start of the slice past continuation bytes.
unfoldable pub skip_continuation : Bytes → Bytes
skip_continuation [] = []
skip_continuation (b ∷ bytes) =
    let rest = skip_continuation bytes in if is_continuation b then rest else b ∷ bytes

unfoldable pub recent_bytes : ℕ → Bytes → Bytes
unfolding skip_continuation
recent_bytes max_bytes replayed =
    if ltb max_bytes (length replayed)
    then skip_continuation (drop (length replayed - max_bytes) replayed)
    else replayed

abbrev pub StartsCharacter : Bytes → Type 0
StartsCharacter [] = Unit
StartsCharacter (b ∷ bytes) = is_continuation b ≡ false

-- `rest` is what is left of the bytes behind continuation bytes.
pub record Skipped (bytes rest : Bytes) : Type 0 where
  pub cut : Bytes
  pub split : bytes ≡ cut ++ rest
  pub continued : All (λ b. is_continuation b ≡ true) cut
  pub clean : StartsCharacter rest

skip-Skipped : (bytes : Bytes) → Skipped bytes (skip_continuation bytes)
unfolding skip_continuation
skip-Skipped [] = record { cut = []; split = refl; continued = tt; clean = tt }
skip-Skipped (b ∷ bytes) = elim (Bool-cases (is_continuation b)) [
  | inl inside ↦
      let s = skip-Skipped bytes in
      rw inside (record {
        cut = b ∷ s.cut;
        split = ap (◌∷◌ b) s.split;
        continued = (inside, s.continued);
        clean = s.clean;
      })
  | inr first ↦ rw first (record { cut = []; split = refl; continued = tt; clean = first })
]

drop_split :
    (n : ℕ) (bytes : Bytes)
    → (front : Bytes) × (bytes ≡ front ++ drop n bytes) × (length front ≡ min n (length bytes))
drop_split zero bytes = ([], refl, omega arith)
drop_split (suc n) [] = ([], refl, omega arith)
drop_split (suc n) (b ∷ bytes) =
    let (front, split, size) = drop_split n bytes in
    (b ∷ front, ap (◌∷◌ b) split, omega (arith, size))

-- What is sent of a replay: all of it if it is within the limit; otherwise its last bytes, as many as
-- the limit allows, less the continuation bytes in front, so that it starts with a character.
pub recent_bytes_tail :
    (max_bytes : ℕ) (replayed : Bytes)
    → ((length replayed ≤ max_bytes) × (recent_bytes max_bytes replayed ≡ replayed))
      ⊎ ((max_bytes < length replayed)
          × (front : Bytes) × (tail : Bytes) × (replayed ≡ front ++ tail)
          × (length tail ≡ max_bytes)
          × Skipped tail (recent_bytes max_bytes replayed))
unfolding recent_bytes
recent_bytes_tail max_bytes replayed = elim (Bool-cases (ltb max_bytes (length replayed))) [
  | inr within ↦ inl (ground (arith, within), rw within refl)
  | inl over ↦
      let n = length replayed - max_bytes in
      let (front, split, size) = drop_split n replayed in
      inr (
        ground (arith, over),
        front,
        drop n replayed,
        split,
        ground (arith, over, size, ap length split, length-append front (drop n replayed)),
        rw over (skip-Skipped (drop n replayed)),
      )
]
