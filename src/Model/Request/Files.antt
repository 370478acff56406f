-- ===== src/Model/Request/Files.antt =====
-- What the loop over the files checks, and what it collects.
use rust_daily.Base.{
  ◌≤◌, ◌≡◌, refl, ◌↔◌, ◌||◌, Option, none, arith, ltb, ok, on_ok, on_unit, on_pass, saturating_add,
}
use rust_daily.Collections.{insert}
use rust_daily.Model.Cases.Step.{submitted_content_iff}
use rust_daily.Model.Cases.{submitted_content}
use rust_daily.Model.Limits.{ValidationLimits}
use rust_daily.Model.Path.Accepted.{
  IsWithinLimits, validate_path_limits_iff, IsSubmittedPath, submitted_path_iff,
}
use rust_daily.Model.Path.{validate_path_limits, submitted_path}
use rust_daily.Model.Request.{FileScan, no_duplicate, scan_file}
use rust_daily.Model.Types.{
  SubmittedPath_ord, SubmittedFile, SubmittedPath, SubmittedContent, is_required_lib, is_test_file,
}
use rust_daily.Text.{len}

-- The validated path and content of a file.
abbrev pub entry : SubmittedFile → SubmittedPath × SubmittedContent
entry f = (record { as_str = f.path }, record { as_bytes = f.content })

pub record IsAccepted (limits : ValidationLimits) (file : SubmittedFile) : Type 0 where
  pub path_limits : IsWithinLimits limits file.path
  pub path_rules : IsSubmittedPath file.path
  pub content_bytes : len file.content ≤ limits.max_file_bytes

-- The state after a round that accepts `file`.
abbrev pub scanned : FileScan → SubmittedFile → FileScan
scanned scan file = record {
  total_bytes = saturating_add scan.total_bytes (len file.content);
  validated_files = (insert (entry file).0 (entry file).1 scan.validated_files).1;
  has_lib_rs = scan.has_lib_rs || is_required_lib (entry file).0;
  has_test_file = scan.has_test_file || is_test_file (entry file).0;
}

pub record FileStep (limits : ValidationLimits) (scan : FileScan) (file : SubmittedFile)
    : Type 0 where
  pub accepted : IsAccepted limits file
  pub within : saturating_add scan.total_bytes (len file.content) ≤ limits.max_total_bytes
  pub fresh : (insert (entry file).0 (entry file).1 scan.validated_files).0 ≡ none

pub no_duplicate_iff :
    {V : Type 0} (path : SubmittedPath) (o : Option V) → (no_duplicate path o ≡ ok tt) ↔ (o ≡ none)
unfolding no_duplicate
no_duplicate_iff path o = ground arith

-- A round succeeds exactly on such a file.
pub scan_file-ok :
    (limits : ValidationLimits) (scan scan' : FileScan) (file : SubmittedFile)
    → scan_file limits scan file ≡ ok scan'
    → FileStep limits scan file × (scan' ≡ scanned scan file)
unfolding scan_file
scan_file-ok limits scan scan' file h = on_unit (validate_path_limits file.path limits) _ h λ l h1.
    on_ok (submitted_path file.path) _ h1 λ path p h2.
      on_pass (ltb limits.max_total_bytes (saturating_add scan.total_bytes (len file.content))) _ _
        h2
        λ t h3.
          on_ok (submitted_content path.as_str file.content limits.max_file_bytes) _ h3
            λ content c h4.
              on_unit (no_duplicate path (insert path content scan.validated_files).0) _ h4 λ d r.
                let (rules, same_path) = (submitted_path_iff file.path (ok path)).0 p in
                let (bytes, same_content) =
                  (submitted_content_iff path.as_str file.content limits.max_file_bytes content).0
                    c in
                let fresh : (insert path content scan.validated_files).0 ≡ none =
                  (no_duplicate_iff path (insert path content scan.validated_files).0).0 d in
                (
                  record {
                    accepted = record {
                      path_limits = (validate_path_limits_iff file.path limits).0 l;
                      path_rules = rules;
                      content_bytes = bytes;
                    };
                    within = ground arith;
                    fresh = rw (same_path, same_content) at fresh;
                  },
                  ground arith,
                )

pub ok-scan_file :
    (limits : ValidationLimits) (scan : FileScan) (file : SubmittedFile)
    → FileStep limits scan file
    → scan_file limits scan file ≡ ok (scanned scan file)
unfolding scan_file
ok-scan_file limits scan file s =
    rw
      (
        (validate_path_limits_iff file.path limits).1 s.accepted.path_limits,
        (submitted_path_iff file.path (ok (entry file).0)).1 (s.accepted.path_rules, refl),
        (submitted_content_iff file.path file.content limits.max_file_bytes (entry file).1).1
            (s.accepted.content_bytes, refl),
        s.fresh,
      )
      (unfold no_duplicate in ground (arith, s.within))
