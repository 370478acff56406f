-- ===== src/Model/Types.antt =====
-- The request as it arrives, the narrow types that validation makes of it, and learner outcomes.
use rust_daily.Base.{ℕ, ◌≡◌, ap, List, ◌++◌, ◌&&◌, Bool}
use rust_daily.Collections.{BTreeMap, BTreeSet}
use rust_daily.DependencySet.{DependencySet}
use rust_daily.Order.{Ord, text_ord}
use rust_daily.Text.{Text, codes, text_eq, starts_with, ends_with, replace}

pub data RunMode : Type 0 where
  cargo_test compile_fail : RunMode

pub record SubmittedFile : Type 0 where
  pub path : Text
  pub content : Text

pub record SubmittedCompileFailCase : Type 0 where
  pub name : Text
  pub path : Text
  pub content : Text
  pub expected_diagnostics : List Text
  pub forbidden_diagnostics : List Text

-- Raw `/run` request accepted at the HTTP boundary.
pub record RunRequest : Type 0 where
  pub mode : RunMode
  pub files : List SubmittedFile
  pub dependency_set : DependencySet
  pub compile_fail_cases : List SubmittedCompileFailCase

-- The validated newtypes: each holds its text, whose field has the name of the getter.
pub record SubmittedPath : Type 0 where
  pub as_str : Text

pub record SubmittedContent : Type 0 where
  pub as_bytes : Text

pub record CompileFailCaseName : Type 0 where
  pub as_str : Text

pub record CompileFailPath : Type 0 where
  pub as_str : Text

pub record DiagnosticSnippet : Type 0 where
  pub as_str : Text

pub record ValidatedCompileFailCase : Type 0 where
  pub name : CompileFailCaseName
  pub path : CompileFailPath
  pub content : SubmittedContent
  pub expected_diagnostics : BTreeSet DiagnosticSnippet
  pub forbidden_diagnostics : BTreeSet DiagnosticSnippet

-- Run request after all validation invariants have been enforced.
pub record ValidatedRunRequest : Type 0 where
  pub mode : RunMode
  pub files : BTreeMap SubmittedPath SubmittedContent
  pub dependency_set : DependencySet
  pub compile_fail_cases : List ValidatedCompileFailCase

-- A derived `Ord` of a newtype compares the texts inside.
module _ {T : Type 0} (f : T → Text) (f_injective : (a b : T) → f a ≡ f b → a ≡ b) where
  abbrev by_text : Ord T
  by_text = record {
    cmp = λ a b. text_ord.cmp (f a) (f b);
    cmp_eq = λ a b. (
      λ h. f_injective a b ((text_ord.cmp_eq (f a) (f b)).0 h),
      λ e. (text_ord.cmp_eq (f a) (f b)).1 (ap f e),
    );
    cmp_flip = λ a b. text_ord.cmp_flip (f a) (f b);
    cmp_trans = λ a b c. text_ord.cmp_trans (f a) (f b) (f c);
  }

instance abbrev pub SubmittedPath_ord : Ord SubmittedPath
SubmittedPath_ord = by_text (λ p. p.as_str) (λ a b e i. record { as_str = e i })

instance abbrev pub CompileFailCaseName_ord : Ord CompileFailCaseName
CompileFailCaseName_ord = by_text (λ p. p.as_str) (λ a b e i. record { as_str = e i })

instance abbrev pub CompileFailPath_ord : Ord CompileFailPath
CompileFailPath_ord = by_text (λ p. p.as_str) (λ a b e i. record { as_str = e i })

instance abbrev pub DiagnosticSnippet_ord : Ord DiagnosticSnippet
DiagnosticSnippet_ord = by_text (λ p. p.as_str) (λ a b e i. record { as_str = e i })

abbrev pub required_lib_path : Text
required_lib_path = codes "src/lib.rs"

abbrev pub tests_prefix : Text
tests_prefix = codes "tests/"

-- `SubmittedPath::is_required_lib`.
unfoldable pub is_required_lib : SubmittedPath → Bool
is_required_lib p = text_eq p.as_str required_lib_path

-- `SubmittedPath::is_test_file`.
unfoldable pub is_test_file : SubmittedPath → Bool
is_test_file p = starts_with p.as_str tests_prefix && ends_with p.as_str (codes ".rs")

-- `CompileFailCaseName::generated_test_target`.
unfoldable pub generated_test_target : CompileFailCaseName → Text
generated_test_target n = codes "compile_fail_" ++ replace b'-' b'_' n.as_str

pub data RunStatus : Type 0 where
  passed failed compile_error timed_out : RunStatus

-- Learner-visible result of a run. `duration_ms` is a `u64`.
pub record LearnerOutcome : Type 0 where
  pub status : RunStatus
  pub stdout : Text
  pub stderr : Text
  pub duration_ms : ℕ

-- Infrastructure failure identified by a correlation id; a `Uuid` is a 128-bit number.
pub record ServiceFailure : Type 0 where
  pub correlation_id : ℕ
