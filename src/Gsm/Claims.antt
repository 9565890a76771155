-- ===== src/Gsm/Claims.antt =====
-- A session has at most one owner (packages/crab_city/src/ws/state_manager.rs).
use crabcity.Gsm.Sessions.{Claims, claim_from, release_session, try_claim_session}
use crabcity.Inference.Manager.{new}
use crabcity.Shared.{
  All, Bool, Bool-cases, List, Option, Text, [], arith, false, inl, inr, insert, lookup,
  lookup-insert, lookup-insert_self, none, refl, retain_values, some, text_dec, true, ◌↔◌, ◌∷◌, ◌≡◌,
  ◌≢◌, ◌⊎◌,
}

-- What a claim of session `s` by instance `i` does to the claims.
abbrev pub Claimed : Text → Text → Claims → Claims × Bool → Type 0
Claimed s i old (new, granted) =
    ((granted ≡ true) ↔ (lookup s new ≡ some i))
    × ((t j : Text) → lookup t old ≡ some j → lookup t new ≡ some j)
    × ((t : Text) → s ≢ t → lookup t new ≡ lookup t old)

claim_from-Claimed :
    (s i : Text) (held : Option Text) (claimed : Claims)
    → lookup s claimed ≡ held
    → Claimed s i claimed (claim_from s i held claimed)
unfolding claim_from
claim_from-Claimed s i none claimed e = (
  (λ _. lookup-insert_self s i claimed, λ _. refl),
  λ t j h. ground (arith, lookup-insert s t i claimed),
  λ t ne. ground (arith, lookup-insert s t i claimed),
)
claim_from-Claimed s i (some owner) claimed e =
    ((λ same. ground arith, λ own. ground arith), λ t j h. h, λ t ne. refl)

-- A claim says whether the instance now owns the session; it takes nothing from another owner, and
-- leaves the other sessions alone.
pub try_claim_session-Claimed :
    (s i : Text) (claimed : Claims) → Claimed s i claimed (try_claim_session s i claimed)
unfolding try_claim_session
try_claim_session-Claimed s i claimed = claim_from-Claimed s i (lookup s claimed) claimed refl

release-none : (i s : Text) (claimed : Claims) → lookup s (release_session i claimed) ≢ some i
unfolding release_session retain_values lookup
release-none i s [] h = cc
release-none i s ((t, owner) ∷ claimed) h = ground (arith, h, release-none i s claimed)

release-other :
    (i j s : Text) (claimed : Claims)
    → i ≢ j
    → lookup s claimed ≡ some j
    → lookup s (release_session i claimed) ≡ some j
unfolding release_session retain_values lookup
release-other i j s [] ne h = cc
release-other i j s ((t, owner) ∷ claimed) ne h = ground (arith, release-other i j s claimed)

-- After a release the instance owns no session, and every other instance owns what it owned.
pub release_session-owners :
    (i s : Text) (claimed : Claims)
    → (lookup s (release_session i claimed) ≢ some i)
      × ((j : Text)
          → i ≢ j
          → lookup s claimed ≡ some j
          → lookup s (release_session i claimed) ≡ some j)
release_session-owners i s claimed =
    (release-none i s claimed, λ j ne h. release-other i j s claimed ne h)

-- The watcher of a conversation (packages/crab_city/src/ws/conversation_watcher.rs) claims the session
-- that its own rotates to, whoever holds it.
unfoldable pub rotate_session : Text → Text → Claims → Claims
rotate_session to_session instance_id claimed = insert to_session instance_id claimed

-- The operations on the claims. The watcher's own claim of a session that nobody holds does to the
-- claims what `try_claim_session` does.
pub data ClaimStep : Type 0 where
  claims : (session_id instance_id : Text) → ClaimStep
  rotates : (to_session instance_id : Text) → ClaimStep
  releases : (instance_id : Text) → ClaimStep

unfoldable pub claim_step : ClaimStep → Claims → Claims
unfolding rotate_session
claim_step (claims s i) claimed = (try_claim_session s i claimed).0
claim_step (rotates s i) claimed = rotate_session s i claimed
claim_step (releases i) claimed = release_session i claimed

unfoldable pub claim_steps : List ClaimStep → Claims → Claims
unfolding claim_step
claim_steps [] claimed = claimed
claim_steps (c ∷ cs) claimed = claim_steps cs (claim_step c claimed)

-- A step that neither releases the instance's sessions nor rotates another instance into the session.
abbrev pub Spares : Text → Text → ClaimStep → Type 0
Spares s i (claims t j) = Unit {0}
Spares s i (rotates t j) = (t ≢ s) ⊎ (j ≡ i)
Spares s i (releases j) = j ≢ i

claim_step-keeps :
    (s i : Text) (c : ClaimStep) (claimed : Claims)
    → Spares s i c
    → lookup s claimed ≡ some i
    → lookup s (claim_step c claimed) ≡ some i
unfolding claim_step
claim_step-keeps s i (claims t j) claimed other own =
    (try_claim_session-Claimed t j claimed).1 s i own
claim_step-keeps s i (rotates t j) claimed (inl elsewhere) own =
    unfold rotate_session in ground (arith, elsewhere, own, lookup-insert t s j claimed)
claim_step-keeps s i (rotates t j) claimed (inr same) own =
    unfold rotate_session in
    (elim (text_dec t s) [
      | yes here ↦ ground (arith, here, same, lookup-insert t s j claimed)
      | no elsewhere ↦ ground (arith, elsewhere, own, lookup-insert t s j claimed)
    ])
claim_step-keeps s i (releases j) claimed other own = release-other j i s claimed other own

claim_steps-keeps :
    (s i : Text) (cs : List ClaimStep) (claimed : Claims)
    → All (Spares s i) cs
    → lookup s claimed ≡ some i
    → lookup s (claim_steps cs claimed) ≡ some i
unfolding claim_steps
claim_steps-keeps s i [] claimed other own = own
claim_steps-keeps s i (c ∷ cs) claimed other own =
    claim_steps-keeps s i cs (claim_step c claimed) other.1
      (claim_step-keeps s i c claimed other.0 own)

refused :
    (s i j : Text) (claimed : Claims)
    → i ≢ j
    → lookup s claimed ≡ some i
    → (try_claim_session s j claimed).1 ≡ false
refused s i j claimed ne own = elim (Bool-cases (try_claim_session s j claimed).1) [
  | inl granted ↦
      let e = (try_claim_session-Claimed s j claimed).0.0 granted in
      let f = (try_claim_session-Claimed s j claimed).1 s i own in absurd (ne (cc))
  | inr no_grant ↦ no_grant
]

-- A claim that was granted excludes every other instance: through any claims and rotations of any
-- instances and any releases by others, a claim of the session by another instance is refused, as
-- long as no other instance's conversation rotates to this very session.
pub claim-exclusive :
    (s i j : Text) (cs : List ClaimStep) (claimed : Claims)
    → (try_claim_session s i claimed).1 ≡ true
    → i ≢ j
    → All (Spares s i) cs
    → (try_claim_session s j (claim_steps cs (try_claim_session s i claimed).0)).1 ≡ false
claim-exclusive s i j cs claimed granted ne other =
    refused s i j (claim_steps cs (try_claim_session s i claimed).0) ne (
      claim_steps-keeps s i cs (try_claim_session s i claimed).0 other
        ((try_claim_session-Claimed s i claimed).0.0 granted))
