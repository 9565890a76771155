-- ===== src/Gsm/Sessions.antt =====
-- Session claims (packages/crab_city/src/ws/state_manager.rs): which instance owns which session.
use crabcity.Shared.{
  Bool, List, Option, Text, eq_text, insert, keys, lookup, none, not, retain_values, some, true,
}

-- The claims by session id: the instance that owns the session.
abbrev pub Claims : Type 0
Claims = List (Text × Text)

-- The claim, given the owner that the map has.
unfoldable pub claim_from : Text → Text → Option Text → Claims → Claims × Bool
claim_from session_id instance_id (some owner) claimed = (claimed, eq_text owner instance_id)
claim_from session_id instance_id none claimed = (insert session_id instance_id claimed, true)

unfoldable pub try_claim_session : Text → Text → Claims → Claims × Bool
unfolding claim_from
try_claim_session session_id instance_id claimed =
    claim_from session_id instance_id (lookup session_id claimed) claimed

unfoldable pub release_session : Text → Claims → Claims
release_session instance_id claimed =
    retain_values (λ owner. not (eq_text owner instance_id)) claimed

unfoldable pub get_claimed_sessions : Claims → List Text
get_claimed_sessions claimed = keys claimed
