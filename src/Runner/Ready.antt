-- ===== src/Runner/Ready.antt =====
-- What holds when the service has initialised its runtime.
use rust_daily.Base.{
  if◌then◌else◌, ◌∙◌, Bool, subst, ok-injective, sym, Bool-cases, on_ok, ◌>>◌, List, All, Result,
  All-map, Option, ◌≡◌, ◌⊎◌, [], ◌∷◌, ◌++◌, true, false, none, some, ok, err, refl, inl, inr,
}
use rust_daily.CargoOutput.{is_success, Output}
use rust_daily.Config.Settings.{RunnerSettings}
use rust_daily.Runner.Capture.{other_kind, ErrorKind}
use rust_daily.Runner.Commands.{ProcessCommandSpec}
use rust_daily.Runner.Container.{ensure_control_success, Effect, ran, Traced}
use rust_daily.Runner.Info.{find_boolean_field-first_hit, all_entries, first_hit, Json}
use rust_daily.Runner.Removal.{Some-behind, Some}
use rust_daily.Runner.Startup.{
  info_spec, image_spec, initialize_local, check_found, initialize_runtime, list_spec,
  reap_stale_containers, check_rootless, remove_spec, listed_ids, remove_all, timed, and_then,
  run_checked, TimedAnswer, StartupAnswers,
}
use rust_daily.Text.Utf8.{Bytes}
use rust_daily.Text.{Text, codes}

-- A command that was answered in time, with success.
abbrev pub Succeeds : TimedAnswer → Output → Type 0
Succeeds answer output = (timed answer ≡ ok output) × (is_success output.code ≡ true)

-- The commands of a start-up, as an operator would type them.
abbrev podman : RunnerSettings → List Text → ProcessCommandSpec
podman config args = record { program = config.podman_path.as_ref; args = args }

abbrev info_command : RunnerSettings → ProcessCommandSpec
info_command config = podman config (codes "info" ∷ codes "--format" ∷ codes "json" ∷ [])

abbrev image_command : RunnerSettings → ProcessCommandSpec
image_command config = podman config (codes "image" ∷ codes "exists" ∷ config.image.as_ref ∷ [])

abbrev list_command : RunnerSettings → ProcessCommandSpec
list_command config = podman config (
    codes "ps"
    ∷ codes "--all"
    ∷ codes "--quiet"
    ∷ codes "--filter"
    ∷ codes "label=io.rust-daily.managed=true"
    ∷ [])

abbrev remove_command : RunnerSettings → Text → ProcessCommandSpec
remove_command config id = podman config (
    codes "rm"
    ∷ codes "--force"
    ∷ codes "--ignore"
    ∷ codes "--volumes"
    ∷ codes "--time"
    ∷ codes "0"
    ∷ id
    ∷ [])

checked-Succeeds :
    (a : StartupAnswers) (spec : ProcessCommandSpec) (output : Output)
    → (run_checked a spec).1 ≡ ok output
    → Succeeds (a.answer spec) output
unfolding run_checked ensure_control_success
checked-Succeeds a spec output h =
    on_ok (timed (a.answer spec)) _ h λ o e z. by_code o e (Bool-cases (is_success o.code)) z
  where
    by_code :
        (o : Output)
        → timed (a.answer spec) ≡ ok o
        → (is_success o.code ≡ true) ⊎ (is_success o.code ≡ false)
        → (ensure_control_success o >> ok o) ≡ ok output
        → Succeeds (a.answer spec) output
    by_code o e (inl t) z =
        let same : ok o ≡ ok output = rw t at z in rw (sym (ok-injective o output same)) (e, t)
    by_code o e (inr f) z = let wrong : (err other_kind) ≡ ok output = rw f at z in cc

-- A chain that succeeds: its first step did, and the trace is that of both.
on_then {κ} :
    {A B : Type 0} {P : Type κ} (m : Traced (Result ErrorKind A))
    (k : A → Traced (Result ErrorKind B)) {b : B}
    → (and_then m k).1 ≡ ok b
    → ((a : A) → m.1 ≡ ok a → (k a).1 ≡ ok b → (and_then m k).0 ≡ m.0 ++ (k a).0 → P)
    → P
unfolding and_then
on_then (fx, err kind) k h p = absurd (cc)
on_then (fx, ok a) k h p = p a refl h refl

found-true : (o : Option Bool) → check_found o ≡ ok tt → o ≡ some true
unfolding check_found
found-true (some true) h = refl
found-true (some false) h = cc
found-true none h = cc

-- Behind the guard that refuses a remote Podman.
on_local {κ} :
    {P : Type κ} (remote : Bool) (m : Traced (Result ErrorKind (Unit {0})))
    → (if remote then ([], err other_kind) else m).1 ≡ ok tt
    → (remote ≡ false → m.1 ≡ ok tt → (if remote then ([], err other_kind) else m) ≡ m → P)
    → P
on_local true m h p = absurd (cc)
on_local false m h p = p refl h refl

module _ (parse_json : Bytes → Option Json) (config : RunnerSettings) (a : StartupAnswers) where
  -- The container `id` was removed by one of the commands `fx`.
  abbrev IsReaped : List Effect → Text → Type 0
  IsReaped fx id =
      Some (λ e. e ≡ ran (remove_command config id)) fx
      × ((o : Output) × Succeeds (a.answer (remove_command config id)) o)

  IsReaped-more :
      (fx fx' : List Effect) (ids : List Text)
      → All (IsReaped fx') ids
      → All (IsReaped (fx ++ fx')) ids
  IsReaped-more fx fx' ids h = All-map (λ id (m, r). (Some-behind _ fx fx' m, r)) ids h

  remove_all-IsReaped :
      (ids : List Text)
      → (remove_all parse_json config a ids).1 ≡ ok tt
      → All (IsReaped (remove_all parse_json config a ids).0) ids
  unfolding remove_all run_checked remove_spec
  remove_all-IsReaped [] h = tt
  remove_all-IsReaped (id ∷ ids) h =
      on_then (run_checked a (remove_spec config id)) (λ output. remove_all parse_json config a ids)
        h
        λ o e z t.
          subst (λ fx. IsReaped fx id × All (IsReaped fx) ids) (sym t)
            (
              (inl refl, (o, checked-Succeeds a (remove_spec config id) o e)),
              IsReaped-more (ran (remove_spec config id) ∷ [])
                  (remove_all parse_json config a ids).0 ids (remove_all-IsReaped ids z),
            )

  -- A local, rootless Podman with the configured image, and no stale container.
  pub record IsReady (fx : List Effect) : Type 0 where
    pub local : a.remote_configured ≡ false
    pub rootless :
        (o : Output) × (j : Json) × Succeeds (a.answer (info_command config)) o
        × (parse_json o.stdout ≡ some j)
        × (first_hit (codes "rootless") (all_entries j) ≡ some true)
    pub image_found : (o : Output) × Succeeds (a.answer (image_command config)) o
    pub reaped :
        (o : Output) × Succeeds (a.answer (list_command config)) o
        × All (IsReaped fx) (listed_ids o.stdout)

  rootless-found :
      (o : Option Json)
      → check_rootless parse_json config a o ≡ ok tt
      → (j : Json) × (o ≡ some j) × (first_hit (codes "rootless") (all_entries j) ≡ some true)
  unfolding check_rootless
  rootless-found none h = cc
  rootless-found (some j) h =
      (j, refl, sym (find_boolean_field-first_hit (codes "rootless") j) ∙ found-true _ h)

  reap-IsReaped :
      (reap_stale_containers parse_json config a).1 ≡ ok tt
      → (o : Output) × Succeeds (a.answer (list_command config)) o
        × All (IsReaped (reap_stale_containers parse_json config a).0) (listed_ids o.stdout)
  unfolding reap_stale_containers run_checked list_spec
  reap-IsReaped h =
      on_then (run_checked a (list_spec config))
        (λ output. remove_all parse_json config a (listed_ids output.stdout)) h
        λ o e z t. (
          o,
          checked-Succeeds a (list_spec config) o e,
          subst (λ fx. All (IsReaped fx) (listed_ids o.stdout)) (sym t)
              (IsReaped-more (ran (list_spec config) ∷ [])
                (remove_all parse_json config a (listed_ids o.stdout)).0 (listed_ids o.stdout)
                (remove_all-IsReaped (listed_ids o.stdout) z)),
        )

  -- The commands that an initialisation goes on with keep what was reaped.
  more :
      (m r : List Effect) {fx : List Effect} (ids : List Text)
      → fx ≡ m ++ r
      → All (IsReaped r) ids
      → All (IsReaped fx) ids
  more m r ids t h = subst (λ fx. All (IsReaped fx) ids) (sym t) (IsReaped-more m r ids h)

  local-IsReady :
      a.remote_configured ≡ false
      → (initialize_local parse_json config a).1 ≡ ok tt
      → IsReady (initialize_local parse_json config a).0
  unfolding initialize_local info_spec image_spec
  local-IsReady l h = on_then (run_checked a (info_spec config)) _ h λ o e1 h t1.
      on_then ([], check_rootless parse_json config a (parse_json o.stdout)) _ h
        λ c e2 h t2. on_then (run_checked a (image_spec config)) _ h λ found e3 h t3.
          let (j, parsed, rootless) = rootless-found (parse_json o.stdout) e2 in
          let (listed, s, r) = reap-IsReaped h in
          record {
            local = l;
            rootless = (o, j, checked-Succeeds a (info_spec config) o e1, parsed, rootless);
            image_found = (found, checked-Succeeds a (image_spec config) found e3);
            reaped = (
              listed,
              s,
              more (run_checked a (info_spec config)).0 _ (listed_ids listed.stdout) t1 (
                  more [] _ (listed_ids listed.stdout) t2
                    (more (run_checked a (image_spec config)).0 _ (listed_ids listed.stdout) t3 r)),
            );
          }

  -- If the initialisation succeeds: no remote Podman is configured; `podman info` succeeded, and the
  -- first field `rootless` of its JSON report that is a truth value says so; `podman image exists`
  -- of the configured image succeeded; `podman ps` of all containers with the label of managed ones
  -- succeeded; and each container that it listed was removed by a `podman rm --force` of its id,
  -- which was run and succeeded.
  pub initialize_runtime-IsReady :
      (initialize_runtime parse_json config a).1 ≡ ok tt
      → IsReady (initialize_runtime parse_json config a).0
  unfolding initialize_runtime
  initialize_runtime-IsReady h =
      on_local a.remote_configured (initialize_local parse_json config a) h
        λ e z t. subst (λ r. IsReady r.0) (sym t) (local-IsReady e z)
