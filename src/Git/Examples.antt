-- ===== src/Git/Examples.antt =====
-- The theorem on the parser of packages/crab_city/src/git/log.rs at two commits.
use crabcity.Diff.Numbers.{pos}
use crabcity.Git.Commits.{Commit, IsCommit, as_logged, expected, parse_git_log_output-print_log}
use crabcity.Git.Log.{body_end, field_end, parse_git_log_output, record_end}
use crabcity.Git.Records.{fields_text, has_char-Lacks, print_log, record_text}
use crabcity.Shared.{
  [], arith, codes, decimal, decimal_onto, has_char, is_whitespace, refl, trim_end, true, ◌∷◌, ◌≡◌,
}

abbrev first_commit : Commit
first_commit = record {
  commit_hash = codes "ab12";
  abbreviation = codes "ab";
  author = codes "Ada";
  address = codes "a@x";
  stamp = 17;
  subject_line = codes "fix it";
  white_in_front = [];
  text = codes "why\nso";
  white_behind = 10 ∷ 10 ∷ [];
  names = codes "HEAD -> main" ∷ codes "dev" ∷ [];
}

abbrev second_commit : Commit
second_commit = record {
  commit_hash = codes "cd";
  abbreviation = codes "c";
  author = [];
  address = [];
  stamp = 0;
  subject_line = codes "a b";
  white_in_front = 32 ∷ [];
  text = [];
  white_behind = [];
  names = [];
}

first_commit-IsCommit : IsCommit first_commit
unfolding has_char is_whitespace trim_end decimal decimal_onto
first_commit-IsCommit = record {
  printed = record {
    no_record_end = has_char-Lacks record_end (record_text (as_logged first_commit)) refl;
    no_body_end = has_char-Lacks body_end (fields_text (as_logged first_commit)) refl;
    hash_fields = (
      has_char-Lacks field_end first_commit.commit_hash refl,
      has_char-Lacks field_end first_commit.abbreviation refl,
      has_char-Lacks field_end first_commit.author refl,
    );
    other_fields = (
      has_char-Lacks field_end first_commit.address refl,
      has_char-Lacks field_end (decimal first_commit.stamp) refl,
      has_char-Lacks field_end first_commit.subject_line refl,
    );
    begins = refl;
    refs_end = refl;
  };
  stamp_fits = omega arith;
  white = (tt, (refl, (refl, tt)));
  text_dark = (refl, refl);
  named = (
    (refl, has_char-Lacks 44 (codes "HEAD -> main") refl, refl, refl),
    ((refl, has_char-Lacks 44 (codes "dev") refl, refl, refl), tt),
  );
}

second_commit-IsCommit : IsCommit second_commit
unfolding has_char is_whitespace trim_end decimal decimal_onto
second_commit-IsCommit = record {
  printed = record {
    no_record_end = has_char-Lacks record_end (record_text (as_logged second_commit)) refl;
    no_body_end = has_char-Lacks body_end (fields_text (as_logged second_commit)) refl;
    hash_fields = (
      has_char-Lacks field_end second_commit.commit_hash refl,
      has_char-Lacks field_end second_commit.abbreviation refl,
      has_char-Lacks field_end second_commit.author refl,
    );
    other_fields = (
      has_char-Lacks field_end second_commit.address refl,
      has_char-Lacks field_end (decimal second_commit.stamp) refl,
      has_char-Lacks field_end second_commit.subject_line refl,
    );
    begins = refl;
    refs_end = refl;
  };
  stamp_fits = omega arith;
  white = ((refl, tt), tt);
  text_dark = (tt, tt);
  named = tt;
}

parse_git_log_output-print_log_example :
    parse_git_log_output (print_log (as_logged first_commit ∷ as_logged second_commit ∷ [])) (pos 1)
    ≡ record { commits = expected first_commit ∷ []; has_more = true }
parse_git_log_output-print_log_example =
    parse_git_log_output-print_log (first_commit ∷ second_commit ∷ []) 1
      (first_commit-IsCommit, (second_commit-IsCommit, tt))
