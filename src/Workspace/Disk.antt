-- ===== src/Workspace/Disk.antt =====
-- What the workspace relies on of a file system.
use rust_daily.Base.{◌≢◌, ◌++◌, List, map, Option, ◌≡◌, none, some, ok}
use rust_daily.Model.Path.{components, normal}
use rust_daily.Text.Utf8.{Bytes}
use rust_daily.Text.{Text}
use rust_daily.Workspace.{FileSystem, join_path}

-- A place in the file system: the names of the directories from the root, and of the entry, with
-- `.`, `..` and links resolved. Several paths may lead to one place.
abbrev pub Place : Type 0
Place = List Text

-- The documented behaviour of the calls, for `contents`, the files at their places, and `place`,
-- where a path leads. No call makes or removes a link, so that does not change.
pub record Laws {S : Type 0} (fs : FileSystem S) (contents : S → Place → Option Bytes)
    (place : Text → Place) : Type 0 where
  -- A written file holds the bytes written. Where it is new, the file at any other place does not
  -- change; an old one might have another name.
  pub write_stores :
      (path : Text) (b : Bytes) (s s' : S)
      → fs.write path b s ≡ ok s'
      → contents s' (place path) ≡ some b
  pub write_keeps :
      (path : Text) (b : Bytes) (s s' : S)
      → fs.write path b s ≡ ok s'
      → contents s (place path) ≡ none
      → (q : Place) → q ≢ place path
      → contents s' q ≡ contents s q
  -- A directory is no file.
  pub create_keeps :
      (dir : Text) (s s' : S)
      → fs.create_dir_all dir s ≡ ok s'
      → (q : Place) → contents s' q ≡ contents s q
  pub tempdir_keeps :
      (root prefix : Text) (s s' : S) (dir : Text)
      → fs.tempdir_in root prefix s ≡ ok (s', dir)
      → (q : Place) → contents s' q ≡ contents s q
  -- A temporary directory is new, so it is empty.
  pub tempdir_fresh :
      (root prefix : Text) (s s' : S) (dir : Text)
      → fs.tempdir_in root prefix s ≡ ok (s', dir)
      → (ns : List Text) → contents s' (place dir ++ ns) ≡ none
  -- There is no link in it either, so names lead downwards from it one by one. Of a path with other
  -- components nothing is known.
  pub tempdir_plain :
      (root prefix : Text) (s s' : S) (dir : Text)
      → fs.tempdir_in root prefix s ≡ ok (s', dir)
      → (path : Text) (ns : List Text) → components path ≡ map normal ns
      → place (join_path dir path) ≡ place dir ++ ns
