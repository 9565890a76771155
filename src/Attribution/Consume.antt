-- ===== src/Attribution/Consume.antt =====
-- What pushing and consuming do to the queues.
use crabcity.Attribution.Content.{
  attribution_content_matches, normalize-matches, normalize_attribution_content,
}
use crabcity.Attribution.Queue.{
  PendingAttribution, Queues, cap_queue, consume_from, consume_pending_attribution, is_fresh,
  push_pending_attribution, queue_of, take_match, typed,
}
use crabcity.Inference.Manager.{new}
use crabcity.Shared.{
  All, Bool-cases, List, Option, Option-cases, Text, [], ap, arith, eq_text, false, if◌then◌else◌,
  inl, inr, insert, is_empty, length, length-append, lookup, lookup-insert, lookup-insert_self, ltb,
  none, refl, retain, some, true, ℕ, ◌++◌, ◌<◌, ◌∷◌, ◌≡◌, ◌≢◌, ◌≤◌,
}

cap_queue-length : (queue : List PendingAttribution) → length (cap_queue queue) ≤ 50
unfolding cap_queue
cap_queue-length [] = omega arith
cap_queue-length (a ∷ queue) = ground (arith, cap_queue-length queue)

-- What is dropped stood in front.
cap_queue-suffix :
    (queue : List PendingAttribution)
    → (dropped : List PendingAttribution) × (queue ≡ dropped ++ cap_queue queue)
      × (length queue ≤ 50 → dropped ≡ [])
unfolding cap_queue
cap_queue-suffix [] = ([], refl, λ h. refl)
cap_queue-suffix (a ∷ queue) = elim (Bool-cases (ltb 50 (length (a ∷ queue)))) [
  | inl over ↦
      let (dropped, split, _) = cap_queue-suffix queue in
      rw over (a ∷ dropped, ap (◌∷◌ a) split, λ h. absurd (ground arith))
  | inr fits ↦ rw fits ([], refl, λ h. refl)
]

-- No instance has more than fifty pending attributions.
abbrev pub IsBounded : Queues → Type 0
IsBounded queues = (i : Text) → length (queue_of i queues) ≤ 50

queue_of-insert :
    (i j : Text) (queue : List PendingAttribution) (queues : Queues)
    → queue_of j (insert i queue queues) ≡ (if eq_text i j then queue else queue_of j queues)
unfolding queue_of
queue_of-insert i j queue queues = ground (arith, lookup-insert i j queue queues)

insert-IsBounded :
    (i : Text) (queue : List PendingAttribution) (queues : Queues)
    → length queue ≤ 50
    → IsBounded queues
    → IsBounded (insert i queue queues)
insert-IsBounded i queue queues h v j = rw (queue_of-insert i j queue queues) (ground (arith, v j))

-- If no instance has more than fifty pending attributions, then so it is after pushing one.
pub push-IsBounded :
    (now : ℕ) (i user_id display_name content : Text) (task_id : Option ℕ) (queues : Queues)
    → IsBounded queues
    → IsBounded (push_pending_attribution now i user_id display_name content task_id queues)
unfolding push_pending_attribution
push-IsBounded now i user_id display_name content task_id queues v =
    elim (Bool-cases (is_empty (normalize_attribution_content content))) [
      | inl blank ↦ rw blank v
      | inr some_text ↦
          rw some_text (insert-IsBounded i _ queues (cap_queue-length (queue_of i queues ++ _)) v)
    ]

-- `found` is the first entry of the queue that matches, and `rest` the queue without it.
pub record Taken (content : Text) (queue : List PendingAttribution) (found : PendingAttribution)
    (rest : List PendingAttribution) : Type 0 where
  pub before : List PendingAttribution
  pub after : List PendingAttribution
  pub split : queue ≡ before ++ found ∷ after
  pub unmatched : All (λ a. attribution_content_matches a.content_prefix content ≡ false) before
  pub matched : attribution_content_matches found.content_prefix content ≡ true
  pub left : rest ≡ before ++ after

abbrev pub Takes :
    Text → List PendingAttribution → Option (PendingAttribution × List PendingAttribution) → Type 0
Takes content queue none =
    All (λ a. attribution_content_matches a.content_prefix content ≡ false) queue
Takes content queue (some (found, rest)) = Taken content queue found rest

Takes-cons :
    (content : Text) (a : PendingAttribution) (queue : List PendingAttribution)
    (later : Option (PendingAttribution × List PendingAttribution))
    → attribution_content_matches a.content_prefix content ≡ false
    → Takes content queue later
    → Takes content
        (a ∷ queue)
        (elim later [ none ↦ none | some (found, rest) ↦ some (found, a ∷ rest) ])
Takes-cons content a queue none miss t = (miss, t)
Takes-cons content a queue (some (found, rest)) miss t = record {
  before = a ∷ t.before;
  after = t.after;
  split = ap (◌∷◌ a) t.split;
  unmatched = (miss, t.unmatched);
  matched = t.matched;
  left = ap (◌∷◌ a) t.left;
}

take_match-Takes :
    (content : Text) (queue : List PendingAttribution)
    → Takes content queue (take_match content queue)
unfolding take_match
take_match-Takes content [] = tt
take_match-Takes content (a ∷ queue) =
    elim (Bool-cases (attribution_content_matches a.content_prefix content)) [
      | inl hit ↦ rw hit (record {
        before = [];
        after = queue;
        split = refl;
        unmatched = tt;
        matched = hit;
        left = refl;
      })
      | inr miss ↦ rw miss (
          Takes-cons content a queue (take_match content queue) miss
            (take_match-Takes content queue))
    ]

-- What an answer means for the queue of the instance.
abbrev pub Answers : ℕ → Text → Text → Queues → Queues × Option PendingAttribution → Type 0
Answers now i content old (new, some found) = Taken content (queue_of i old) found (queue_of i new)
Answers now i content old (new, none) =
    All (λ a. attribution_content_matches a.content_prefix content ≡ false) (queue_of i old)
    × (queue_of i new ≡ retain (is_fresh now) (queue_of i old))

queue_of-insert_self :
    (i : Text) (queue : List PendingAttribution) (queues : Queues)
    → queue_of i (insert i queue queues) ≡ queue
queue_of-insert_self i queue queues = rw (queue_of-insert i i queue queues) (ground arith)

answer :
    (now : ℕ) (i content : Text) (queue : List PendingAttribution) (queues : Queues)
    (result : Option (PendingAttribution × List PendingAttribution))
    → queue_of i queues ≡ queue
    → Takes content queue result
    → Answers now i content queues (elim result [
      | some (found, rest) ↦ (insert i rest queues, some found)
      | none ↦ (insert i (retain (is_fresh now) queue) queues, none)
    ])
answer now i content queue queues none e t = rw e (t, queue_of-insert_self i _ queues)
answer now i content queue queues (some (found, rest)) e t =
    rw (e, queue_of-insert_self i rest queues) t

queue_of_missing : (i : Text) (queues : Queues) → lookup i queues ≡ none → queue_of i queues ≡ []
unfolding queue_of
queue_of_missing i queues e = ground arith

queue_of_found :
    (i : Text) (queue : List PendingAttribution) (queues : Queues)
    → lookup i queues ≡ some queue
    → queue_of i queues ≡ queue
unfolding queue_of
queue_of_found i queue queues e = ground arith

answer_missing :
    (now : ℕ) (i content : Text) (queues : Queues)
    → queue_of i queues ≡ []
    → Answers now i content queues (queues, none)
answer_missing now i content queues e = rw e (tt, refl)

-- Consuming with an entry that is not blank answers with the oldest entry that matches, and takes
-- exactly that one out. If it answers `none`, then nothing in the queue matched, and exactly the
-- entries that are at least 60 seconds old are gone.
pub consume-Answers :
    (now : ℕ) (i content : Text) (queues : Queues)
    → is_empty (normalize_attribution_content content) ≡ false
    → Answers now i content queues (consume_pending_attribution now i content queues)
unfolding consume_pending_attribution
consume-Answers now i content queues h = elim (Option-cases (lookup i queues)) [
  | inl missing ↦
      rw (h, missing) (answer_missing now i content queues (queue_of_missing i queues missing))
  | inr (queue, found) ↦
      rw (h, found)
        (answer now i content queue queues (take_match content queue)
          (queue_of_found i queue queues found) (take_match-Takes content queue))
]

other_queue :
    (i j : Text) (queue : List PendingAttribution) (queues : Queues)
    → i ≢ j
    → queue_of j (insert i queue queues) ≡ queue_of j queues
other_queue i j queue queues ne = ground (arith, queue_of-insert i j queue queues)

push_other :
    (now : ℕ) (i j user_id display_name content : Text) (task_id : Option ℕ) (queues : Queues)
    → i ≢ j
    → queue_of j (push_pending_attribution now i user_id display_name content task_id queues)
      ≡ queue_of j queues
unfolding push_pending_attribution
push_other now i j user_id display_name content task_id queues ne =
    elim (Bool-cases (is_empty (normalize_attribution_content content))) [
      | inl blank ↦ rw blank refl
      | inr some_text ↦
          rw some_text (other_queue i j (cap_queue (queue_of i queues ++ _)) queues ne)
    ]

consume_from_other :
    (now : ℕ) (i j content : Text) (queue : List PendingAttribution) (queues : Queues)
    (result : Option (PendingAttribution × List PendingAttribution))
    → i ≢ j
    → take_match content queue ≡ result
    → queue_of j (consume_from now i content queue queues).0 ≡ queue_of j queues
unfolding consume_from
consume_from_other now i j content queue queues none ne e =
    rw (e, consume_from) (other_queue i j (retain (is_fresh now) queue) queues ne)
consume_from_other now i j content queue queues (some (found, rest)) ne e =
    rw (e, consume_from) (other_queue i j rest queues ne)

consume_other :
    (now : ℕ) (i j content : Text) (queues : Queues) (held : Option (List PendingAttribution))
    → i ≢ j
    → lookup i queues ≡ held
    → queue_of j (consume_pending_attribution now i content queues).0 ≡ queue_of j queues
unfolding consume_pending_attribution
consume_other now i j content queues none ne e = rw e (ground arith)
consume_other now i j content queues (some queue) ne e =
    elim (Bool-cases (is_empty (normalize_attribution_content content))) [
      | inl blank ↦ rw blank refl
      | inr text ↦ rw (text, e) (consume_from_other now i j content queue queues _ ne refl)
    ]

-- Pushing and consuming for one instance leave the queues of the others alone.
pub push-consume_other :
    (now : ℕ) (i j user_id display_name content : Text) (task_id : Option ℕ) (queues : Queues)
    → i ≢ j
    → (queue_of j (push_pending_attribution now i user_id display_name content task_id queues)
        ≡ queue_of j queues)
      × (queue_of j (consume_pending_attribution now i content queues).0 ≡ queue_of j queues)
push-consume_other now i j user_id display_name content task_id queues ne = (
  push_other now i j user_id display_name content task_id queues ne,
  consume_other now i j content queues (lookup i queues) ne refl,
)

-- The first match of a queue in front of which nothing matches.
take_match-append :
    (content : Text) (queue : List PendingAttribution) (a : PendingAttribution)
    → All (λ b. attribution_content_matches b.content_prefix content ≡ false) queue
    → attribution_content_matches a.content_prefix content ≡ true
    → take_match content (queue ++ a ∷ []) ≡ some (a, queue)
unfolding take_match
take_match-append content [] a none_before hit = rw hit refl
take_match-append content (b ∷ queue) a none_before hit =
    rw (none_before.0, take_match-append content queue a none_before.1 hit) refl

cap_queue_fits : (queue : List PendingAttribution) → length queue ≤ 50 → cap_queue queue ≡ queue
cap_queue_fits queue h =
    let (dropped, split, nothing) = cap_queue-suffix queue in ground (arith, split, nothing h)

consume_hit :
    (later : ℕ) (i content : Text) (queue rest : List PendingAttribution) (queues : Queues)
    (a : PendingAttribution)
    → is_empty (normalize_attribution_content content) ≡ false
    → lookup i queues ≡ some queue
    → take_match content queue ≡ some (a, rest)
    → consume_pending_attribution later i content queues ≡ (insert i rest queues, some a)
unfolding consume_pending_attribution consume_from
consume_hit later i content queue rest queues a text held hit =
    rw (text, held) (rw (hit, consume_from) refl)

push_fits :
    (now : ℕ) (i user_id display_name content : Text) (task_id : Option ℕ) (queues : Queues)
    → is_empty (normalize_attribution_content content) ≡ false
    → length (queue_of i queues) < 50
    → push_pending_attribution now i user_id display_name content task_id queues
      ≡ insert i (queue_of i queues ++ typed now user_id display_name content task_id ∷ []) queues
unfolding push_pending_attribution
push_fits now i user_id display_name content task_id queues text room =
    let a = typed now user_id display_name content task_id in
    rw text (
      ap (λ q. insert i q queues)
        (cap_queue_fits (queue_of i queues ++ a ∷ [])
          (omega (arith, length-append (queue_of i queues) (a ∷ [])))))

-- Input that is typed and then read back from the conversation is attributed to the user who typed
-- it, and the queue is as before: if fewer than fifty entries were pending, none of which matches
-- the content, and the content is not blank, then consuming with the content that was just pushed
-- answers with what was pushed.
pub consume-push :
    (now later : ℕ) (i user_id display_name content : Text) (task_id : Option ℕ) (queues : Queues)
    → is_empty (normalize_attribution_content content) ≡ false
    → length (queue_of i queues) < 50
    → All (λ a. attribution_content_matches a.content_prefix content ≡ false) (queue_of i queues)
    → let (queues', found) =
        consume_pending_attribution later i content
          (push_pending_attribution now i user_id display_name content task_id queues) in
      (found ≡ some (typed now user_id display_name content task_id))
      × (queue_of i queues' ≡ queue_of i queues)
consume-push now later i user_id display_name content task_id queues text room unmatched =
    rw (push_fits now i user_id display_name content task_id queues text room) (
      rw
        (consume_hit later i content _ old (insert i (old ++ a ∷ []) queues) a text
          (lookup-insert_self i (old ++ a ∷ []) queues)
          (take_match-append content old a unmatched (normalize-matches content text)))
        (refl, queue_of-insert_self i old (insert i (old ++ a ∷ []) queues)))
  where
    old : List PendingAttribution
    old = queue_of i queues

    a : PendingAttribution
    a = typed now user_id display_name content task_id
