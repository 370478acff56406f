-- ===== src/Tests.antt =====
-- Concrete inputs: limits, requests and Cargo outputs.
mod Validation
mod Output
mod Serving
mod Files
mod Running
mod Configuring
mod Lesson
mod Monitoring
use rust_daily.Base.{List, [], ◌∷◌}
use rust_daily.DependencySet.{std}
use rust_daily.Model.Limits.{ValidationLimits}
use rust_daily.Model.Types.{
  RunRequest, SubmittedFile, ValidatedRunRequest, cargo_test, compile_fail,
}
use rust_daily.Text.{codes}

abbrev pub test_limits : ValidationLimits
test_limits = record {
  max_files = 8;
  max_file_bytes = 65536;
  max_total_bytes = 262144;
  max_path_bytes = 240;
  max_path_component_bytes = 120;
  max_diagnostic_snippets_per_case = 16;
  max_diagnostic_snippet_bytes = 512;
  max_diagnostic_total_bytes = 8192;
}

abbrev pub test_files : List SubmittedFile
test_files =
    record { path = codes "tests/a.rs"; content = codes "1" }
    ∷ record { path = codes "src/lib.rs"; content = codes "22" }
    ∷ []

abbrev pub cargo_request : RunRequest
cargo_request = record {
  mode = cargo_test;
  files = test_files;
  dependency_set = std;
  compile_fail_cases = [];
}

abbrev pub compile_fail_request : RunRequest
compile_fail_request = record {
  mode = compile_fail;
  files = test_files;
  dependency_set = std;
  compile_fail_cases =
      record {
        name = codes "no-copy";
        path = codes "compile_fail/a.rs";
        content = codes "3";
        expected_diagnostics = codes " E0382" ∷ [];
        forbidden_diagnostics = codes "E0599" ∷ [];
      }
      ∷ [];
}

-- Their validated forms.
abbrev pub cargo_validated : ValidatedRunRequest
cargo_validated = record {
  mode = cargo_test;
  files =
      (record { as_str = codes "src/lib.rs" }, record { as_bytes = codes "22" })
      ∷ (record { as_str = codes "tests/a.rs" }, record { as_bytes = codes "1" })
      ∷ [];
  dependency_set = std;
  compile_fail_cases = [];
}

abbrev pub compile_fail_validated : ValidatedRunRequest
compile_fail_validated = record {
  mode = compile_fail;
  files = cargo_validated.files;
  dependency_set = std;
  compile_fail_cases =
      record {
        name = record { as_str = codes "no-copy" };
        path = record { as_str = codes "compile_fail/a.rs" };
        content = record { as_bytes = codes "3" };
        expected_diagnostics = record { as_str = codes "E0382" } ∷ [];
        forbidden_diagnostics = record { as_str = codes "E0599" } ∷ [];
      }
      ∷ [];
}
