-- ===== src/DependencySet.antt =====
-- backend/src/dependency_set.rs: the supported dependency sets and their Cargo commands.
use rust_daily.Base.{List, [], ◌∷◌}
use rust_daily.Text.{Text, codes}

pub data DependencySet : Type 0 where
  std advanced advanced_db : DependencySet

-- Program and arguments of one Cargo command.
pub record CargoTestCommand : Type 0 where
  pub program : Text
  pub args : List Text

-- The program that each of the three commands starts with.
program_of : DependencySet → Text
program_of std = codes "cargo"
program_of advanced = codes "run-advanced-lesson-cargo"
program_of advanced_db = codes "run-advanced-db-lesson-cargo"

unfoldable pub test_command : DependencySet → CargoTestCommand
unfolding program_of
test_command s = record { program = program_of s; args = codes "test" ∷ [] }

unfoldable pub check_lib_command : DependencySet → CargoTestCommand
unfolding program_of
check_lib_command s = record { program = program_of s; args = codes "check" ∷ codes "--lib" ∷ [] }

unfoldable pub check_test_command : DependencySet → Text → CargoTestCommand
unfolding program_of
check_test_command s test_name = record {
  program = program_of s;
  args = codes "check" ∷ codes "--test" ∷ test_name ∷ [];
}

abbrev std_cargo_toml : Text
std_cargo_toml =
    codes
      "[package]\nname = \"rust_daily_lesson\"\nversion = \"0.1.0\"\nedition = \"2024\"\n\n[lib]\npath = \"src/lib.rs\"\n\n[dependencies]\n\n[profile.test]\ndebug = 0\nincremental = false\n"

-- The manifest of a dependency set; `advanced_toml` and `advanced_db_toml` are the texts of the
-- files in docker/dependency-cache that the build includes.
unfoldable pub cargo_toml : (advanced_toml advanced_db_toml : Text) → DependencySet → Text
cargo_toml advanced_toml advanced_db_toml std = std_cargo_toml
cargo_toml advanced_toml advanced_db_toml advanced = advanced_toml
cargo_toml advanced_toml advanced_db_toml advanced_db = advanced_db_toml
