-- ===== src/Config/Payload.antt =====
-- The limit on JSON bodies against the requests that validation accepts.
use Prim.Native.Nat.{◌*◌}
use native.Mathlib.Nat.{suc-mul, mul-le-mul_right}
use rust_daily.Base.{
  ℕ, ◌+◌, ◌≤◌, ◌<◌, ◌≡◌, arith, List, [], ◌∷◌, All, Option, length, ok, usize_max,
}
use rust_daily.Config.Raw.{RawSettings}
use rust_daily.Config.Settings.{Settings, settings}
use rust_daily.Config.Sound.{settings-IsSound}
use rust_daily.Config.Values.{Url}
use rust_daily.Model.Cases.Scan.{AreValidCases, cases_bytes}
use rust_daily.Model.Cases.Snippets.{IsSmall}
use rust_daily.Model.Limits.{ValidationLimits}
use rust_daily.Model.Request.Files.{IsAccepted}
use rust_daily.Model.Request.Guarantees.{validate-files, validate-total, validate-cases}
use rust_daily.Model.Request.Scan.{content_bytes}
use rust_daily.Model.Request.Sound.{CaseRules}
use rust_daily.Model.Request.{validate}
use rust_daily.Model.Types.{
  RunRequest, RunMode, cargo_test, compile_fail, SubmittedFile, SubmittedCompileFailCase,
  ValidatedCompileFailCase, ValidatedRunRequest,
}
use rust_daily.Text.{Text, len}

-- The bytes of the paths.
abbrev file_path_bytes : List SubmittedFile → ℕ
file_path_bytes [] = 0
file_path_bytes (f ∷ fs) = len f.path + file_path_bytes fs

abbrev case_path_bytes : List SubmittedCompileFailCase → ℕ
case_path_bytes [] = 0
case_path_bytes (c ∷ cs) = len c.path + case_path_bytes cs

-- The bytes of a request's contents, snippets and paths.
abbrev pub text_bytes : RunRequest → ℕ
text_bytes q =
    content_bytes q.files
    + cases_bytes q.compile_fail_cases
    + (file_path_bytes q.files + case_path_bytes q.compile_fail_cases)

module _ (limits : ValidationLimits) where
  file_paths_within :
      (fs : List SubmittedFile)
      → All (IsAccepted limits) fs
      → file_path_bytes fs ≤ length fs * limits.max_path_bytes
  file_paths_within [] h = omega arith
  file_paths_within (f ∷ fs) (a, h) = omega (
    arith,
    a.path_limits.bytes,
    file_paths_within fs h,
    suc-mul (length fs) limits.max_path_bytes,
  )

  case_paths_within :
      (cs : List SubmittedCompileFailCase) (vs : List ValidatedCompileFailCase)
      → AreValidCases limits cs vs
      → case_path_bytes cs ≤ length cs * limits.max_path_bytes
  case_paths_within [] vs h = omega arith
  case_paths_within (c ∷ cs) [] h = absurd h
  case_paths_within (c ∷ cs) (v ∷ vs) (a, h) = omega (
    arith,
    a.path_limits.bytes,
    case_paths_within cs vs h,
    suc-mul (length cs) limits.max_path_bytes,
  )

  mode_paths_within :
      (mode : RunMode) (cs : List SubmittedCompileFailCase) (vs : List ValidatedCompileFailCase)
      → CaseRules limits mode cs vs
      → case_path_bytes cs ≤ 4 * limits.max_path_bytes
  mode_paths_within cargo_test [] vs r = omega arith
  mode_paths_within cargo_test (c ∷ cs) vs r = absurd (cc (r.0))
  mode_paths_within compile_fail cs vs r =
      omega (arith, case_paths_within cs vs r.2, mul-le-mul_right limits.max_path_bytes r.1)

-- If the limits on bytes and on JSON bodies are below the largest `usize`: whatever request the
-- configured limits accept, the configured size of JSON bodies has room for each byte of its
-- contents, snippets and paths written as six, and for 4096 bytes more.
pub settings-validate :
    {IpAddr : Type 0} (parse_url : Text → Option Url) (parse_ip : Text → Option IpAddr)
    (raw : RawSettings) (s : Settings IpAddr) (request : RunRequest) (v : ValidatedRunRequest)
    → settings parse_url parse_ip raw ≡ ok s
    → IsSmall s.validation.limits
    → s.api.max_json_payload_bytes < usize_max
    → validate request s.validation.limits ≡ ok v
    → text_bytes request * 6 + 4096 ≤ s.api.max_json_payload_bytes
settings-validate parse_url parse_ip raw s request v h small room accepted =
    let limits = s.validation.limits in
    let (files, few, distinct, lib, test) = validate-files limits small request v accepted in
    let sound = settings-IsSound parse_url parse_ip raw s h in
    let paths = file_paths_within limits request.files files in
    let cases =
      mode_paths_within limits request.mode request.compile_fail_cases v.compile_fail_cases
        (validate-cases limits small request v accepted) in
    omega (
      arith,
      validate-total limits small request v accepted,
      paths,
      cases,
      mul-le-mul_right limits.max_path_bytes few,
      sound.payload_covered,
      room,
    )
