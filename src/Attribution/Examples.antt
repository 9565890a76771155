-- ===== src/Attribution/Examples.antt =====
-- The theorems on attributions at concrete inputs (packages/crab_city/src/ws/state_manager.rs).
use crabcity.Attribution.Consume.{Answers, IsBounded, consume-Answers, consume-push, push-IsBounded}
use crabcity.Attribution.Content.{attribution_content_matches, normalize_attribution_content}
use crabcity.Attribution.Queue.{
  Queues, consume_pending_attribution, push_pending_attribution, queue_of, typed,
}
use crabcity.Shared.{
  Text, [], arith, codes, is_whitespace, lookup, none, refl, some, starts_with, text_dec, trim, ◌∷◌,
  ◌≡◌,
}

abbrev here : Text
here = codes "a"

abbrev hello : Text
hello = codes "hello"

push-IsBounded_example :
    IsBounded (push_pending_attribution 1 here (codes "u") (codes "Ann") hello none [])
unfolding queue_of lookup
push-IsBounded_example =
    push-IsBounded 1 here (codes "u") (codes "Ann") hello none [] (λ i. omega arith)

-- One user's input that waits for its entry.
abbrev waiting : Queues
waiting =
    (
      here,
      (record {
        user_id = codes "u";
        display_name = codes "Ann";
        content_prefix = codes "bye";
        timestamp = 0;
        task_id = none;
      })
          ∷ [],
    )
    ∷ []

consume-Answers_example :
    Answers 1 here (codes "bye") waiting (consume_pending_attribution 1 here (codes "bye") waiting)
unfolding normalize_attribution_content trim is_whitespace
consume-Answers_example = consume-Answers 1 here (codes "bye") waiting refl

consume-push_example :
    let (queues', found) =
      consume_pending_attribution 2 here hello
        (push_pending_attribution 1 here (codes "u") (codes "Ann") hello none waiting) in
    (found ≡ some (typed 1 (codes "u") (codes "Ann") hello none))
    × (queue_of here queues' ≡ queue_of here waiting)
unfolding normalize_attribution_content trim is_whitespace queue_of lookup text_dec
    attribution_content_matches starts_with
consume-push_example =
    consume-push 1 2 here (codes "u") (codes "Ann") hello none waiting refl (omega arith) (refl, tt)
