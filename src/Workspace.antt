-- ===== src/Workspace.antt =====
-- backend/src/workspace.rs: the Cargo workspace of one run. The file system is the operating
-- system's: an interface of the operations that the code calls, with laws that Workspace/Disk states.
pub mod Disk
pub mod Writes
pub mod Layout
pub mod Plain
pub mod Accepted
use rust_daily.Model.Path.{slash}
use rust_daily.DependencySet.{DependencySet}
use rust_daily.Collections.{BTreeMap}
use mathlib.Core.List.{reverse}
use mathlib.Core.Option
use rust_daily.Base.{
  ◌==◌, ◌>>=◌, if◌then◌else◌, map_err, Result, List, ◌++◌, Option, [], ◌∷◌, none, some, ok,
}
use rust_daily.Model.Types.{
  SubmittedContent, generated_test_target, SubmittedPath, RunMode, ValidatedCompileFailCase,
  ValidatedRunRequest, cargo_test, compile_fail,
}
use rust_daily.Runner.Capture.{ErrorKind}
use rust_daily.Text.Utf8.{Bytes, as_bytes}
use rust_daily.Text.{Text, codes}

-- The errors' sources are I/O errors.
pub data WorkspaceError : Type 0 where
  create_root create_temp_dir create_directory write_failed :
      (path : Text) (source : ErrorKind) → WorkspaceError

-- The calls of the file system, on its state `S`; a path is a text, with `/` between its parts.
pub record FileSystem (S : Type 0) : Type 0 where
  pub create_dir_all : Text → S → Result ErrorKind S
  pub tempdir_in : (root prefix : Text) → S → Result ErrorKind (S × Text)
  pub write : Text → Bytes → S → Result ErrorKind S

-- `Path::join` of a relative path.
abbrev pub join_path : Text → Text → Text
join_path dir path = dir ++ slash ∷ path

-- What stands before the first slash of a reversed path, dropped with it.
unfoldable drop_name : Text → Option Text
drop_name [] = none
drop_name (c ∷ s) = let rest = drop_name s in if c == slash then some s else rest

-- `Path::parent`, of a path that does not end in a slash.
unfoldable pub parent : Text → Option Text
unfolding drop_name
parent path = Option.map reverse (drop_name (reverse path))

-- `TestTargetName::from`.
abbrev pub test_target_name : ValidatedCompileFailCase → Text
test_target_name c = generated_test_target c.name

module _ {S : Type 0} (fs : FileSystem S) where
  unfoldable pub create_parent : Option Text → S → Result WorkspaceError S
  create_parent none s = ok s
  create_parent (some p) s = map_err (create_directory p) (fs.create_dir_all p s)

  unfoldable pub write_file : Text → Bytes → S → Result WorkspaceError S
  write_file path contents s = do
    s' ← create_parent (parent path) s
    map_err (write_failed path) (fs.write path contents s')

  -- The loop over the files.
  unfoldable pub write_files :
      Text → BTreeMap SubmittedPath SubmittedContent → S → Result WorkspaceError S
  write_files dir [] s = ok s
  write_files dir ((path, content) ∷ files) s = do
    s' ← write_file (join_path dir path.as_str) (as_bytes content.as_bytes) s
    write_files dir files s'

  unfoldable pub prepare_workspace :
      (DependencySet → Text)
      → Text
      → ValidatedRunRequest
      → Text
      → S
      → Result WorkspaceError (S × Text)
  prepare_workspace manifest job_text request root s = do
    s1 ← map_err (create_root root) (fs.create_dir_all root s)
    (s2, dir) ←
        map_err (create_temp_dir root)
          (fs.tempdir_in root (codes "job-" ++ (job_text ++ codes "-")) s1)
    s3 ←
        write_file (join_path dir (codes "Cargo.toml")) (as_bytes (manifest request.dependency_set))
          s2
    s4 ← write_files dir request.files s3
    ok (s4, dir)

  unfoldable pub write_compile_fail_case :
      Text → ValidatedCompileFailCase → S → Result WorkspaceError S
  write_compile_fail_case workspace c s =
      write_file
        (join_path (join_path workspace (codes "tests")) (test_target_name c ++ codes ".rs"))
        (as_bytes c.content.as_bytes) s

  -- The loop in `run_inner`.
  unfoldable pub write_cases : Text → List ValidatedCompileFailCase → S → Result WorkspaceError S
  write_cases workspace [] s = ok s
  write_cases workspace (c ∷ cs) s = do
    s' ← write_compile_fail_case workspace c s
    write_cases workspace cs s'

  -- That loop under its condition.
  unfoldable pub write_mode_cases :
      RunMode → Text → List ValidatedCompileFailCase → S → Result WorkspaceError S
  write_mode_cases cargo_test workspace cs s = ok s
  write_mode_cases compile_fail workspace cs s = write_cases workspace cs s

  -- Both steps of `run_inner` before the container starts.
  unfoldable pub materialize :
      (DependencySet → Text)
      → Text
      → ValidatedRunRequest
      → Text
      → S
      → Result WorkspaceError (S × Text)
  materialize manifest job_text request root s = do
    (s', dir) ← prepare_workspace manifest job_text request root s
    s'' ← write_mode_cases request.mode dir request.compile_fail_cases s'
    ok (s'', dir)
