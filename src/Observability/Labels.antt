-- ===== src/Observability/Labels.antt =====
-- The labels of the HTTP metrics.
use rust_daily.Base.{
  Bool-cases, All, inl, inr, ◌⊎◌, Option, List, if◌then◌else◌, Bool, ℕ, ◌≡◌, [], ◌∷◌, none, some,
  true, refl, any, leb, ◌&&◌,
}
use rust_daily.Text.{Text, codes, text_eq, starts_with, ends_with, contains}

pub data HttpStatusClass : Type 0 where
  success_class redirection client_error server_error other_class : HttpStatusClass

-- `HttpStatusClass::from`.
unfoldable pub status_class : ℕ → HttpStatusClass
status_class status =
    if leb 200 status && leb status 299
    then success_class
    else (if leb 300 status && leb status 399
        then redirection
        else (if leb 400 status && leb status 499
            then client_error
            else (if leb 500 status && leb status 599 then server_error else other_class)))

-- Its text.
unfoldable pub class_text : HttpStatusClass → Text
class_text success_class = codes "2xx"
class_text redirection = codes "3xx"
class_text client_error = codes "4xx"
class_text server_error = codes "5xx"
class_text other_class = codes "other"

-- The arms of the `match`, in their order: a test, and the label that it leads to.
unfoldable pub label_arms : Text → List (Bool × Text)
label_arms path =
    (text_eq path (codes "/"), codes "/")
    ∷ (text_eq path (codes "/favicon.svg"), codes "/favicon.svg")
    ∷ (text_eq path (codes "/index.html"), codes "/index.html")
    ∷ (text_eq path (codes "/manifest.webmanifest"), codes "/manifest.webmanifest")
    ∷ (text_eq path (codes "/sw.js"), codes "/sw.js")
    ∷ (starts_with path (codes "/assets/"), codes "/assets/{asset}")
    ∷ (starts_with path (codes "/icons/"), codes "/icons/{icon}")
    ∷ (
      starts_with path (codes "/content/lessons/") && ends_with path (codes ".json"),
      codes "/content/lessons/{lesson}.json",
    )
    ∷ (
      starts_with path (codes "/workbox-") && ends_with path (codes ".js"),
      codes "/workbox-{hash}.js",
    )
    ∷ (contains path (codes "."), codes "/{static_file}")
    ∷ []

-- The first arm whose test holds, or the last label.
unfoldable pub first_arm : List (Bool × Text) → Text
first_arm [] = codes "/{unmatched}"
first_arm (arm ∷ arms) = let rest = first_arm arms in if arm.0 then arm.1 else rest

-- `path_label`, of the pattern that matches the request, if one does, and its path.
unfoldable pub path_label : Option Text → Text → Text
path_label (some pattern) path = pattern
path_label none path = first_arm (label_arms path)

-- The labels of the paths that no route matches.
abbrev pub fixed_labels : List Text
fixed_labels =
    codes "/"
    ∷ codes "/favicon.svg"
    ∷ codes "/index.html"
    ∷ codes "/manifest.webmanifest"
    ∷ codes "/sw.js"
    ∷ codes "/assets/{asset}"
    ∷ codes "/icons/{icon}"
    ∷ codes "/content/lessons/{lesson}.json"
    ∷ codes "/workbox-{hash}.js"
    ∷ codes "/{static_file}"
    ∷ codes "/{unmatched}"
    ∷ []

pub record IsFixed (label : Text) : Type 0 where
  pub listed : any (λ l. text_eq l label) fixed_labels ≡ true

first_arm-IsFixed :
    (arms : List (Bool × Text))
    → All (λ (arm : Bool × Text). IsFixed arm.1) arms
    → IsFixed (first_arm arms)
unfolding first_arm text_eq
first_arm-IsFixed [] h = record { listed = refl }
first_arm-IsFixed ((t, label) ∷ arms) (f, h) = elim (Bool-cases t) [
  | inl e ↦ rw e f
  | inr e ↦ rw e (first_arm-IsFixed arms h)
]

arms-IsFixed : (path : Text) → All (λ (arm : Bool × Text). IsFixed arm.1) (label_arms path)
unfolding label_arms text_eq
arms-IsFixed path = (
  record { listed = refl },
  (
    record { listed = refl },
    (
      record { listed = refl },
      (
        record { listed = refl },
        (
          record { listed = refl },
          (
            record { listed = refl },
            (
              record { listed = refl },
              (
                record { listed = refl },
                (record { listed = refl }, (record { listed = refl }, tt)),
              ),
            ),
          ),
        ),
      ),
    ),
  ),
)

-- Whatever path a client asks for, its label in the metrics is the pattern of the route that
-- matches it, or one of eleven fixed texts: the number of time series does not grow with the paths.
pub path_label-IsFixed :
    (pattern : Option Text) (path : Text)
    → (pattern ≡ some (path_label pattern path)) ⊎ IsFixed (path_label pattern path)
unfolding path_label
path_label-IsFixed none path = inr (first_arm-IsFixed (label_arms path) (arms-IsFixed path))
path_label-IsFixed (some p) path = inl refl
