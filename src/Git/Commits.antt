-- ===== src/Git/Commits.antt =====
-- The commits that packages/crab_city/src/git/log.rs reads from what `git log` prints of them, described
-- apart from the code.
use crabcity.Diff.Numbers.{parse_i64, pos, ℤ}
use crabcity.Git.Log.{
  GitCommit, GitLogResponse, date_of, parse_git_log_output, parse_refs, split_char,
}
use crabcity.Git.Records.{
  IsLogged, Lacks, Logged, commit_of_logged, length-map, parse_git_log_output-records, print_log,
  split_char-append,
}
use crabcity.Shared.{
  All, Bool, List, Option, StartsDark, Text, [], ap, append-nil, arith, decimal, false,
  if◌then◌else◌, is_empty, is_whitespace, length, ltb, map, none, not, parse-decimal, parse_decimal,
  parse_onto, refl, retain, some, sym, take, trim, trim_end, trim_start, trim_start_dark, true, ℕ,
  ◌&&◌, ◌++◌, ◌∙◌, ◌∷◌, ◌≡◌, ◌≤◌,
}

-- Not ending with white space.
abbrev pub EndsDark : Text → Type 0
EndsDark [] = Unit
EndsDark (c ∷ []) = is_whitespace c ≡ false
EndsDark (c ∷ d ∷ s) = EndsDark (d ∷ s)

abbrev pub IsWhite : Text → Type 0
IsWhite s = All (λ ch. is_whitespace ch ≡ true) s

-- A commit in the repository; white space may stand around its message's body.
pub record Commit : Type 0 where
  pub commit_hash : Text
  pub abbreviation : Text
  pub author : Text
  pub address : Text
  pub stamp : ℕ
  pub subject_line : Text
  pub white_in_front : Text
  pub text : Text
  pub white_behind : Text
  pub names : List Text

-- Names with `, ` between them.
abbrev pub join_names : List Text → Text
join_names [] = []
join_names (n ∷ []) = n
join_names (n ∷ m ∷ names) = n ++ 44 ∷ 32 ∷ join_names (m ∷ names)

-- What git prints of it, field by field.
abbrev pub as_logged : Commit → Logged
as_logged c = record {
  hash = c.commit_hash;
  short = c.abbreviation;
  name = c.author;
  email = c.address;
  date = decimal c.stamp;
  subject = c.subject_line;
  body = c.white_in_front ++ (c.text ++ c.white_behind);
  refs = join_names c.names;
}

-- What the handler should answer for it.
abbrev pub expected : Commit → GitCommit
expected c = record {
  hash = c.commit_hash;
  short_hash = c.abbreviation;
  author_name = c.author;
  author_email = c.address;
  date = pos c.stamp;
  message = c.subject_line;
  body = c.text;
  refs = c.names;
}

-- A name of a reference: not empty, without a comma, and without white space around it.
abbrev pub IsName : Text → Type 0
IsName n = (is_empty n ≡ false) × Lacks 44 n × StartsDark n × EndsDark n

pub record IsCommit (c : Commit) : Type 0 where
  pub printed : IsLogged (as_logged c)
  pub stamp_fits : c.stamp ≤ 9223372036854775807
  pub white : IsWhite c.white_in_front × IsWhite c.white_behind
  pub text_dark : StartsDark c.text × EndsDark c.text
  pub named : All IsName c.names

trim_end-white : (s : Text) → IsWhite s → trim_end s ≡ []
unfolding trim_end
trim_end-white [] h = refl
trim_end-white (c ∷ s) h = rw (trim_end-white s h.1, h.0) refl

trim_end-EndsDark : (s back : Text) → EndsDark s → IsWhite back → trim_end (s ++ back) ≡ s
unfolding trim_end
trim_end-EndsDark [] back dark h = trim_end-white back h
trim_end-EndsDark (c ∷ []) back dark h = rw (trim_end-white back h, dark) refl
trim_end-EndsDark (c ∷ d ∷ s) back dark h =
    ap (λ u. if is_whitespace c && is_empty u then [] else c ∷ u)
      (trim_end-EndsDark (d ∷ s) back dark h)
    ∙ ground arith

trim-white : (c : ℕ) (s : Text) → is_whitespace c ≡ true → trim (c ∷ s) ≡ trim s
unfolding trim trim_start trim_end
trim-white c s h = go (trim_end s)
  where
    go :
        (t : Text) → trim_start (if is_whitespace c && is_empty t then [] else c ∷ t) ≡ trim_start t
    go [] = ground (arith, h)
    go (d ∷ t) = ground (arith, h)

trim-front : (front s : Text) → IsWhite front → trim (front ++ s) ≡ trim s
trim-front [] s h = refl
trim-front (c ∷ front) s h = trim-white c (front ++ s) h.0 ∙ trim-front front s h.1

trim-around :
    (front s back : Text)
    → IsWhite front
    → StartsDark s
    → EndsDark s
    → IsWhite back
    → trim (front ++ (s ++ back)) ≡ s
unfolding trim
trim-around front s back white_front starts dark white_back =
    trim-front front (s ++ back) white_front
    ∙ (ap trim_start (trim_end-EndsDark s back dark white_back) ∙ trim_start_dark s starts)

trim-IsName : (n : Text) → IsName n → trim n ≡ n
trim-IsName n h = ap trim (sym (append-nil n)) ∙ trim-around [] n [] tt h.2 h.3 tt

split_char-last : (sep : ℕ) (s : Text) → Lacks sep s → split_char sep s ≡ (s, [])
unfolding split_char
split_char-last sep [] h = refl
split_char-last sep (ch ∷ s) (not_it, h) = rw (not_it, split_char-last sep s h) refl

-- The names of the parts between commas.
names_of : Text × List Text → List Text
names_of parts = retain (λ x. not (is_empty x)) (map trim (parts.0 ∷ parts.1))

names_of-cons :
    (n : Text) (parts : List Text)
    → IsName n
    → names_of (n, parts) ≡ n ∷ retain (λ x. not (is_empty x)) (map trim parts)
unfolding names_of
names_of-cons n parts h = rw (trim-IsName n h, h.0) refl

names_of-space : (s : Text) → names_of (split_char 44 (32 ∷ s)) ≡ names_of (split_char 44 s)
unfolding names_of split_char
names_of-space s =
    ap (λ x. retain (λ y. not (is_empty y)) (x ∷ map trim (split_char 44 s).1))
      (trim-white 32 (split_char 44 s).0 (unfold is_whitespace in refl))

names_of-join_names :
    (names : List Text) → All IsName names → names_of (split_char 44 (join_names names)) ≡ names
unfolding names_of split_char
names_of-join_names [] h = unfold trim trim_end trim_start in refl
names_of-join_names (n ∷ []) h = ap names_of (split_char-last 44 n h.0.1) ∙ names_of-cons n [] h.0
names_of-join_names (n ∷ m ∷ names) h =
    let later = split_char 44 (32 ∷ join_names (m ∷ names)) in
    let parts = later.0 ∷ later.1 in
    ap names_of (split_char-append 44 n (32 ∷ join_names (m ∷ names)) h.0.1)
    ∙ (names_of-cons n parts h.0
        ∙ ap (◌∷◌ n)
            (names_of-space (join_names (m ∷ names)) ∙ names_of-join_names (m ∷ names) h.1))

parse_refs-join_names :
    (names : List Text) → All IsName names → parse_refs (join_names names) ≡ names
unfolding parse_refs names_of
parse_refs-join_names names h = names_of-join_names names h

parse_i64-parse_decimal :
    (s : Text) (n : ℕ)
    → n ≤ 9223372036854775807
    → parse_decimal s ≡ some n
    → parse_i64 s ≡ some (pos n)
unfolding parse_i64 parse_decimal parse_onto
parse_i64-parse_decimal [] n fits e = cc
parse_i64-parse_decimal (c ∷ s) n fits e = ground (arith, e, fits)

parsed_date : (n : ℕ) → n ≤ 9223372036854775807 → date_of (decimal n) ≡ pos n
parsed_date n fits =
    ap (λ (o : Option ℤ). elim o [ none ↦ pos 0 | some m ↦ m ])
      (parse_i64-parse_decimal (decimal n) n fits (parse-decimal n))

read_with : Commit → ℤ → Text → List Text → GitCommit
read_with c date body refs = record (expected c) { date = date; body = body; refs = refs }

commit_of_logged-expected : (c : Commit) → IsCommit c → commit_of_logged (as_logged c) ≡ expected c
unfolding read_with
commit_of_logged-expected c h =
    let printed_body = c.white_in_front ++ (c.text ++ c.white_behind) in
    let printed_names = join_names c.names in
    let body_read =
      trim-around c.white_in_front c.text c.white_behind h.white.0 h.text_dark.0 h.text_dark.1
        h.white.1 in
    ap (λ d. read_with c d (trim printed_body) (parse_refs printed_names))
      (parsed_date c.stamp h.stamp_fits)
    ∙ (ap (λ b. read_with c (pos c.stamp) b (parse_refs printed_names)) body_read
        ∙ ap (read_with c (pos c.stamp) c.text) (parse_refs-join_names c.names h.named))

map-expected :
    (commits : List Commit)
    → All IsCommit commits
    → map commit_of_logged (map as_logged commits) ≡ map expected commits
map-expected [] h = refl
map-expected (c ∷ commits) h =
    ap (λ x. x ∷ map commit_of_logged (map as_logged commits)) (commit_of_logged-expected c h.0)
    ∙ ap (◌∷◌ (expected c)) (map-expected commits h.1)

map-IsLogged : (commits : List Commit) → All IsCommit commits → All IsLogged (map as_logged commits)
map-IsLogged [] h = tt
map-IsLogged (c ∷ commits) h = (h.0.printed, map-IsLogged commits h.1)

-- What git prints of commits is read back in order: the hashes, the author's name and address, the time,
-- the subject, the body without the white space around it, and the names of the references one by one.
-- The answer has as many commits as the limit allows, and there are more exactly if git printed more
-- than that. The separators of the format do not stand within the fields, the time fits into an `i64`,
-- and no name has a comma or white space around it.
pub parse_git_log_output-print_log :
    (commits : List Commit) (limit : ℕ)
    → All IsCommit commits
    → parse_git_log_output (print_log (map as_logged commits)) (pos limit) ≡ record {
      commits = take limit (map expected commits);
      has_more = ltb limit (length commits);
    }
parse_git_log_output-print_log commits limit h =
    parse_git_log_output-records (map as_logged commits) limit (map-IsLogged commits h)
    ∙ (ap (λ x. response (take limit x) (ltb limit (length (map as_logged commits))))
          (map-expected commits h)
        ∙ ap (λ n. response (take limit (map expected commits)) (ltb limit n))
            (length-map as_logged commits))
  where
    response : List GitCommit → Bool → GitLogResponse
    response page more = record { commits = page; has_more = more }
