-- ===== src/Runner/Info.antt =====
-- `find_boolean_field`: the search of Podman's JSON report. Parsing it is `serde_json`'s.
use rust_daily.Base.{
  ◌+◌, ◌&&◌, leb, if◌then◌else◌, map, List, Option, Bool, sym, ℕ, ◌≡◌, [], ◌∷◌, ◌++◌, none, some,
  refl,
}
use rust_daily.Text.{Text, text_eq}

-- `serde_json::Value`; only the values that the code tells apart.
mutual
  pub data Json : Type 0 where
    boolean : Bool → Json
    array : Elements → Json
    object : Entries → Json
    other_value : Json

  pub data Elements : Type 0 where
    no_elements : Elements
    element : Json → Elements → Elements

  pub data Entries : Type 0 where
    no_entries : Entries
    entry_of : (name : Text) (value : Json) → Entries → Entries

-- `Value::as_bool`.
unfoldable pub as_bool : Json → Option Bool
as_bool (boolean b) = some b
as_bool _ = none

-- `str::eq_ignore_ascii_case`.
unfoldable pub to_ascii_lowercase : ℕ → ℕ
to_ascii_lowercase c = if leb b'A' c && leb c b'Z' then c + 32 else c

unfoldable pub eq_ignore_ascii_case : Text → Text → Bool
eq_ignore_ascii_case s t = text_eq (map to_ascii_lowercase s) (map to_ascii_lowercase t)

-- The first of two results.
abbrev pub first_of {ℓ} : {A : Type ℓ} → Option A → Option A → Option A
first_of (some a) o = some a
first_of none o = o

-- A hit in an entry itself.
unfoldable pub own_value : Text → Text → Json → Option Bool
own_value field name value = if eq_ignore_ascii_case name field then as_bool value else none

unfoldable mutual
  pub find_boolean_field : Text → Json → Option Bool
  find_boolean_field field (boolean b) = none
  find_boolean_field field other_value = none
  find_boolean_field field (array vs) = find_in_elements field vs
  find_boolean_field field (object es) = find_in_entries field es

  pub find_in_elements : Text → Elements → Option Bool
  find_in_elements field no_elements = none
  find_in_elements field (element v vs) =
      first_of (find_boolean_field field v) (find_in_elements field vs)

  pub find_in_entries : Text → Entries → Option Bool
  find_in_entries field no_entries = none
  find_in_entries field (entry_of name value es) =
      first_of (own_value field name value)
        (first_of (find_boolean_field field value) (find_in_entries field es))

-- The entries of a value at any depth, each before those inside it, in the order in which the maps
-- yield them.
unfoldable mutual
  pub all_entries : Json → List (Text × Json)
  all_entries (boolean b) = []
  all_entries other_value = []
  all_entries (array vs) = element_entries vs
  all_entries (object es) = entry_entries es

  pub element_entries : Elements → List (Text × Json)
  element_entries no_elements = []
  element_entries (element v vs) = all_entries v ++ element_entries vs

  pub entry_entries : Entries → List (Text × Json)
  entry_entries no_entries = []
  entry_entries (entry_of name value es) = (name, value) ∷ (all_entries value ++ entry_entries es)

-- The first hit in a list of entries.
unfoldable pub first_hit : Text → List (Text × Json) → Option Bool
first_hit field [] = none
first_hit field (e ∷ es) = first_of (own_value field e.0 e.1) (first_hit field es)

first_hit-append :
    (field : Text) (xs ys : List (Text × Json))
    → first_hit field (xs ++ ys) ≡ first_of (first_hit field xs) (first_hit field ys)
unfolding first_hit
first_hit-append field [] ys = refl
first_hit-append field (e ∷ es) ys =
    rw (first_hit-append field es ys)
      (assoc (own_value field e.0 e.1) (first_hit field es) (first_hit field ys))
  where
    assoc : (a b c : Option Bool) → first_of a (first_of b c) ≡ first_of (first_of a b) c
    assoc none b c = refl
    assoc (some x) b c = refl

mutual
  unfolding find_boolean_field find_in_elements find_in_entries all_entries element_entries
      entry_entries first_hit

  value_hit :
      (field : Text) (v : Json) → find_boolean_field field v ≡ first_hit field (all_entries v)
  value_hit field (boolean b) = refl
  value_hit field other_value = refl
  value_hit field (array vs) = elements_hit field vs
  value_hit field (object es) = entries_hit field es

  elements_hit :
      (field : Text) (vs : Elements)
      → find_in_elements field vs ≡ first_hit field (element_entries vs)
  elements_hit field no_elements = refl
  elements_hit field (element v vs) =
      rw (value_hit field v, elements_hit field vs)
        (sym (first_hit-append field (all_entries v) (element_entries vs)))

  entries_hit :
      (field : Text) (es : Entries) → find_in_entries field es ≡ first_hit field (entry_entries es)
  entries_hit field no_entries = refl
  entries_hit field (entry_of name value es) =
      rw
        (
          value_hit field value,
          entries_hit field es,
          first_hit-append field (all_entries value) (entry_entries es),
        )
        refl

-- The search finds the first entry, at any depth and each before those inside it, whose name is
-- the one looked for, up to the case of ASCII letters, and whose value is a truth value.
pub find_boolean_field-first_hit :
    (field : Text) (v : Json) → find_boolean_field field v ≡ first_hit field (all_entries v)
find_boolean_field-first_hit field v = value_hit field v
