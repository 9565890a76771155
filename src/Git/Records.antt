-- ===== src/Git/Records.antt =====
-- The records that `git log` prints for packages/crab_city/src/git/log.rs, and what its parser makes of
-- them.
use crabcity.Diff.Numbers.{pos}
use crabcity.Git.Log.{
  GitCommit, add_commit, body_end, break_at, commit_of, commit_with, field_end, or_no_text,
  parse_git_log_output, parse_record, parse_records, record_end, split_char, splitn,
}
use crabcity.Shared.{
  All, List, Option, StartsDark, Text, [], ap, arith, false, has_char, if◌then◌else◌, is_empty,
  is_whitespace, length, ltb, map, none, refl, some, suc, take, trim, trim_dark, trim_end,
  trim_start, ℕ, ◌&&◌, ◌++◌, ◌==◌, ◌∙◌, ◌∷◌, ◌≡◌,
}

-- What git prints of a commit.
pub record Logged : Type 0 where
  pub hash : Text
  pub short : Text
  pub name : Text
  pub email : Text
  pub date : Text
  pub subject : Text
  pub body : Text
  pub refs : Text

abbrev pub Lacks : ℕ → Text → Type 0
Lacks sep s = All (λ ch. ch == sep ≡ false) s

abbrev pub fields_text : Logged → Text
fields_text c =
    c.hash
    ++ (field_end
        ∷ (c.short
            ++ (field_end
                ∷ (c.name
                    ++ (field_end
                        ∷ (c.email
                            ++ (field_end
                                ∷ (c.date
                                    ++ (field_end ∷ (c.subject ++ (field_end ∷ c.body)))))))))))

-- `%H%x00%h%x00%an%x00%ae%x00%at%x00%s%x00%b%x1e%D`
abbrev pub record_text : Logged → Text
record_text c = fields_text c ++ (body_end ∷ c.refs)

-- Each record has `%x1f` and the end of its line behind it.
abbrev pub print_log : List Logged → Text
print_log [] = []
print_log (c ∷ commits) = record_text c ++ (record_end ∷ 10 ∷ print_log commits)

-- The separators do not stand within the fields, the hash begins the line, and the names end it.
pub record IsLogged (c : Logged) : Type 0 where
  pub no_record_end : Lacks record_end (record_text c)
  pub no_body_end : Lacks body_end (fields_text c)
  pub hash_fields : Lacks field_end c.hash × Lacks field_end c.short × Lacks field_end c.name
  pub other_fields : Lacks field_end c.email × Lacks field_end c.date × Lacks field_end c.subject
  pub begins : StartsDark (record_text c)
  pub refs_end : trim_end c.refs ≡ c.refs

pub has_char-Lacks : (sep : ℕ) (s : Text) → has_char sep s ≡ false → Lacks sep s
unfolding has_char
has_char-Lacks sep [] h = tt
has_char-Lacks sep (ch ∷ s) h = (ground (arith, h), has_char-Lacks sep s (ground (arith, h)))

pub split_char-append :
    (sep : ℕ) (s t : Text)
    → Lacks sep s
    → split_char sep (s ++ sep ∷ t) ≡ (s, (split_char sep t).0 ∷ (split_char sep t).1)
unfolding split_char
split_char-append sep [] t h = ground arith
split_char-append sep (ch ∷ s) t (not_it, h) =
    rw (not_it, split_char, split_char-append sep s t h) refl

break_at-append : (sep : ℕ) (s t : Text) → Lacks sep s → break_at sep (s ++ sep ∷ t) ≡ (s, some t)
unfolding break_at
break_at-append sep [] t h = ground arith
break_at-append sep (ch ∷ s) t (not_it, h) = rw (not_it, break_at, break_at-append sep s t h) refl

splitn-append :
    (n sep : ℕ) (s t : Text) → Lacks sep s → splitn (suc n) sep (s ++ sep ∷ t) ≡ s ∷ splitn n sep t
unfolding splitn
splitn-append n sep s t h =
    ap
      (λ (q : Text × Option Text). elim q.1 [
        | none ↦ q.0 ∷ []
        | some behind ↦ q.0 ∷ splitn n sep behind
      ])
      (break_at-append sep s t h)

trim_end-body_end : (s t : Text) → trim_end (s ++ body_end ∷ t) ≡ s ++ body_end ∷ trim_end t
unfolding trim_end is_whitespace
trim_end-body_end [] t = refl
trim_end-body_end (ch ∷ s) t = rw (trim_end-body_end s t) (behind s)
  where
    behind :
        (x : Text)
        → (if is_whitespace ch && is_empty (x ++ body_end ∷ trim_end t)
            then []
            else ch ∷ (x ++ body_end ∷ trim_end t))
          ≡ ch ∷ (x ++ body_end ∷ trim_end t)
    behind [] = ground arith
    behind (y ∷ x) = ground arith

trim-record_text : (c : Logged) → IsLogged c → trim (record_text c) ≡ record_text c
trim-record_text c h =
    trim_dark (record_text c) h.begins
    ∙ (trim_end-body_end (fields_text c) c.refs
        ∙ ap (λ x. fields_text c ++ body_end ∷ x) h.refs_end)

-- The line that a record ends is trimmed off the next.
trim-line_end : (s : Text) → trim (10 ∷ s) ≡ trim s
unfolding trim trim_start trim_end is_whitespace
trim-line_end s = go (trim_end s)
  where
    go :
        (t : Text)
        → trim_start (if is_whitespace 10 && is_empty t then [] else 10 ∷ t) ≡ trim_start t
    go [] = refl
    go (ch ∷ t) = refl

-- The commit of a record.
abbrev pub commit_of_logged : Logged → GitCommit
commit_of_logged c = commit_with c.hash c.short c.name c.email c.date c.subject c.body c.refs

abbrev read_fields : Logged → List Text
read_fields c = c.hash ∷ c.short ∷ c.name ∷ c.email ∷ c.date ∷ c.subject ∷ c.body ∷ []

splitn-fields_text : (c : Logged) → IsLogged c → splitn 6 field_end (fields_text c) ≡ read_fields c
unfolding splitn
splitn-fields_text c h =
    let (f1, f2, f3) = h.hash_fields in
    let (f4, f5, f6) = h.other_fields in
    splitn-append 5 field_end c.hash _ f1
    ∙ ap (◌∷◌ c.hash) (
        splitn-append 4 field_end c.short _ f2
        ∙ ap (◌∷◌ c.short) (
            splitn-append 3 field_end c.name _ f3
            ∙ ap (◌∷◌ c.name) (
                splitn-append 2 field_end c.email _ f4
                ∙ ap (◌∷◌ c.email) (
                    splitn-append 1 field_end c.date _ f5
                    ∙ ap (◌∷◌ c.date) (splitn-append 0 field_end c.subject _ f6)))))

parse_record-cons :
    (s fields refs : Text)
    → s ≡ fields ++ body_end ∷ refs
    → Lacks body_end fields
    → parse_record s ≡ commit_of (splitn 6 field_end fields) refs
unfolding parse_record
parse_record-cons [] fields refs e h = absurd (nothing fields e)
  where
    nothing : (x : Text) → ◌≡◌ {A = Text} [] (x ++ body_end ∷ refs) → ⊥
    nothing [] q = cc
    nothing (y ∷ x) q = cc
parse_record-cons (ch ∷ s) fields refs e h =
    ap (λ (q : Text × Option Text). commit_of (splitn 6 field_end q.0) (or_no_text q.1))
      (ap (break_at body_end) e ∙ break_at-append body_end fields refs h)

parse_record-record_text :
    (c : Logged) → IsLogged c → parse_record (trim (record_text c)) ≡ some (commit_of_logged c)
parse_record-record_text c h =
    parse_record-cons (trim (record_text c)) (fields_text c) c.refs (trim-record_text c h)
      h.no_body_end
    ∙ ap (λ fields. commit_of fields c.refs) (splitn-fields_text c h)

abbrev records_of : Text → List GitCommit
records_of s = parse_records ((split_char record_end s).0 ∷ (split_char record_end s).1)

records_of-line_end : (s : Text) → records_of (10 ∷ s) ≡ records_of s
unfolding split_char parse_records
records_of-line_end s =
    let parts = split_char record_end s in
    ap (λ x. add_commit (parse_record x) (parse_records parts.1)) (trim-line_end parts.0)

records_of-print_log :
    (commits : List Logged)
    → All IsLogged commits
    → records_of (print_log commits) ≡ map commit_of_logged commits
unfolding split_char parse_records parse_record trim trim_start trim_end
records_of-print_log [] h = refl
records_of-print_log (c ∷ commits) (logged, h) =
    let rest = 10 ∷ print_log commits in
    ap (λ (q : Text × List Text). parse_records (q.0 ∷ q.1))
      (split_char-append record_end (record_text c) rest logged.no_record_end)
    ∙ (ap (λ o. add_commit o (records_of rest)) (parse_record-record_text c logged)
        ∙ ap (◌∷◌ (commit_of_logged c))
            (records_of-line_end (print_log commits) ∙ records_of-print_log commits h))

pub length-map : {A B : Type 0} (f : A → B) (xs : List A) → length (map f xs) ≡ length xs
length-map f [] = refl
length-map f (x ∷ xs) = ap suc (length-map f xs)

-- What the parser makes of the records: the code's own reading of the fields of each.
pub parse_git_log_output-records :
    (commits : List Logged) (limit : ℕ)
    → All IsLogged commits
    → parse_git_log_output (print_log commits) (pos limit) ≡ record {
      commits = take limit (map commit_of_logged commits);
      has_more = ltb limit (length commits);
    }
unfolding parse_git_log_output
parse_git_log_output-records commits limit h =
    rw (records_of-print_log commits h, length-map commit_of_logged commits) refl
