-- ===== src/Runtime/Tests.antt =====
-- A file and a reload on one backend, with texts for `Uri` and natural numbers for `f64`, and the theorems
-- on them.
use mistralrs_proxy.Prelude.{
  ℕ, ◌+◌, ◌≤◌, ◌≡◌, ◌≢◌, refl, leb, Bool, true, false, Option, none, some, List, [], ◌∷◌, arith,
  All, Str, str_eq, codes,
}
use mistralrs_proxy.Prelude.Maps.{lookup, insert}
use mistralrs_proxy.Prelude.Monad.{returned}
use mistralrs_proxy.Backend.Slot.{
  BackendSlot, BackendMode, active, disabled, ok, err, snapshot, reconcile_present, publish_locked,
  new, activate, set_mode,
}
use mistralrs_proxy.Backend.Registry.{
  duplicate_backend_id, get_retained, collect, retire_one, retire_absent, admit_desired,
  apply_desired, reconcile, sort, snapshots, get,
}
use mistralrs_proxy.Runtime.{
  least_pressure_v1, Backend, RuntimeConfig, BackendFile, RuntimeFile, UriOps, RuntimeState,
  registry_spec,
}
use mistralrs_proxy.Runtime.Config.{
  validate_controls, validate_backend_id, validate_uri, parse_backend_url, append_path,
  url_or_default, read_backend, read_backends, parse_file,
}
use mistralrs_proxy.Runtime.Accepted.{IsAccepted, parse_file-IsAccepted}
use mistralrs_proxy.Runtime.Apply.{
  removed, backend_must_be_disabled, reconcile_error, RuntimeReloadReport, by_id, change_of,
  refuses, check_current, generation_for, assign_generations, specs_of, restore_each, reassert_each,
  reconcile_modes, publish, apply_checked, apply_with_modes, restore_in, restore_slot,
}
use mistralrs_proxy.Runtime.Instances.{
  number_backends, activate_each, from_config, backend_instances,
}
use mistralrs_proxy.Runtime.Published.{starts, backend_instances-Published}
use mistralrs_proxy.Runtime.InUse.{InUseStays}
use mistralrs_proxy.Runtime.Reload.{Assigned}
use mistralrs_proxy.Runtime.Applied.{
  apply_with_modes-err, apply_with_modes-parse_file, apply_with_modes-ok,
}

-- A text stands for the path of a URL on one host.
abbrev uris : UriOps Str
uris = record {
  parse = λ text. some text;
  scheme = λ u. some (codes "http");
  authority = λ u. some (codes "gpu");
  path = λ u. u;
  query = λ u. none;
  build = λ scheme authority path. some path;
  to_string = λ u. u;
  uri_eq = str_eq;
}

abbrev at_most_one : ℕ → Bool
at_most_one n = leb n 1

abbrev id_a : Str
id_a = b'a' ∷ []

abbrev raw_a : BackendFile
raw_a = record {
  id = id_a;
  url = codes "/x/";
  metrics_url = none;
  readiness_url = some (codes "/r");
  capacity = some 4;
}

abbrev file : RuntimeFile ℕ
file = record {
  schema_version = 1;
  backends = raw_a ∷ [];
  routing = record { policy = least_pressure_v1; kv_soft_limit = 1 };
  telemetry = record { scrape_interval_ms = 1000; scrape_timeout_ms = 750; stale_after_ms = 5000 };
  readiness = record {
    probe_interval_ms = 2000;
    probe_timeout_ms = 1000;
    success_threshold = 2;
    failure_threshold = 3;
  };
  registration = record { enabled = false; max_keys = none };
  openwebui = record { key_name = none };
}

abbrev backend_at : Str → Backend Str
backend_at url = record {
  id = id_a;
  url = url;
  metrics_url = codes "/x/metrics";
  readiness_url = codes "/r";
  capacity = some 4;
}

abbrev config_of : List (Backend Str) → RuntimeConfig Str ℕ
config_of backends = record {
  backends = backends;
  routing = file.routing;
  telemetry = file.telemetry;
  readiness = file.readiness;
  registration = file.registration;
  openwebui = file.openwebui;
}

abbrev config : RuntimeConfig Str ℕ
config = config_of (backend_at (codes "/x/") ∷ [])

file_parsed : parse_file uris at_most_one file ≡ ok config
unfolding parse_file validate_controls validate_backend_id read_backends read_backend
    parse_backend_url url_or_default append_path validate_uri mistralrs_proxy.Prelude.str_eq
file_parsed = refl

parse_file-IsAccepted_example : IsAccepted uris at_most_one config
parse_file-IsAccepted_example = parse_file-IsAccepted uris at_most_one file config file_parsed

abbrev slot_at : Str → BackendMode → ℕ → BackendSlot
slot_at endpoint mode changes = record {
  state = record {
    spec = record { id = id_a; endpoint = endpoint };
    registered = true;
    mode = mode;
    mode_epoch = 0;
    sequence = changes;
    spec_revision = changes;
    next_lease_serial = 0;
    total_acquired = 0;
    leases = [];
  };
  changed = changes;
}

abbrev state_at : Str → BackendMode → ℕ → RuntimeState Str ℕ
state_at endpoint mode changes = record {
  inner = record {
    config = config_of (backend_at endpoint ∷ []);
    revision = 1 + changes;
    backend_generations = (id_a, 1 + changes) ∷ [];
    next_backend_generation = 2 + changes;
  };
  registry = (id_a, slot_at endpoint mode changes) ∷ [];
}

-- An active backend is not removed.
apply_with_modes-err_example : state_at (codes "/x/") active 0 ≡ state_at (codes "/x/") active 0
unfolding apply_with_modes check_current refuses change_of by_id get_retained lookup snapshot
    mistralrs_proxy.Prelude.str_eq
apply_with_modes-err_example =
    apply_with_modes-err uris 5 (config_of []) [] (state_at (codes "/x/") active 0)
      (state_at (codes "/x/") active 0) (backend_must_be_disabled id_a removed) refl

apply_with_modes-parse_file_example :
    apply_with_modes uris 5 config [] (state_at (codes "/y/") disabled 0)
    ≢ returned
        (err (reconcile_error (duplicate_backend_id id_a)))
        (state_at (codes "/y/") disabled 0)
apply_with_modes-parse_file_example =
    apply_with_modes-parse_file uris at_most_one file config 5 []
      (state_at (codes "/y/") disabled 0) (state_at (codes "/y/") disabled 0)
      (duplicate_backend_id id_a) file_parsed

abbrev moved_report : RuntimeReloadReport
moved_report = record {
  revision = 2;
  reconciled = record { added = []; revived = []; updated = id_a ∷ []; retired = [] };
}

-- A disabled backend moves to another URL.
backend_moved :
    apply_with_modes uris 5 config [] (state_at (codes "/y/") disabled 0)
    ≡ returned (ok moved_report) (state_at (codes "/x/") disabled 1)
unfolding apply_with_modes apply_checked check_current refuses change_of by_id get_retained lookup
    insert snapshot mistralrs_proxy.Prelude.str_eq assign_generations generation_for specs_of
    registry_spec reconcile_modes restore_each reassert_each publish reconcile collect apply_desired
    retire_absent retire_one admit_desired reconcile_present publish_locked sort snapshots
backend_moved = refl

apply_with_modes-ok_example :
    (config ≡ config)
    × ((moved_report.revision ≡ (state_at (codes "/y/") disabled 0).inner.revision + 1)
        × ((state_at (codes "/x/") disabled 1).inner.revision ≡ moved_report.revision))
    × All
        (InUseStays uris
          (state_at (codes "/y/") disabled 0).registry
          (backend_at (codes "/x/") ∷ []))
        (backend_at (codes "/y/") ∷ [])
    × ((2 ≤ 3)
        × All
            (Assigned uris (backend_at (codes "/y/") ∷ []) ((id_a, 1) ∷ []) 2 3 ((id_a, 2) ∷ []))
            (backend_at (codes "/x/") ∷ []))
apply_with_modes-ok_example =
    apply_with_modes-ok uris 5 config [] (state_at (codes "/y/") disabled 0)
      (state_at (codes "/x/") disabled 1) moved_report (refl, tt) backend_moved

abbrev first_state : RuntimeState Str ℕ
first_state = record {
  inner = record {
    config = config;
    revision = 1;
    backend_generations = (id_a, 1) ∷ [];
    next_backend_generation = 2;
  };
  registry =
      (
        id_a,
        record {
          state = record {
            spec = record { id = id_a; endpoint = codes "/x/" };
            registered = true;
            mode = active;
            mode_epoch = 1;
            sequence = 1;
            spec_revision = 0;
            next_lease_serial = 0;
            total_acquired = 0;
            leases = [];
          };
          changed = 1;
        },
      )
      ∷ [];
}

first_published : from_config uris 5 config ≡ some first_state
unfolding from_config activate_each restore_in restore_slot number_backends get get_retained lookup
    insert mistralrs_proxy.Prelude.str_eq specs_of registry_spec reconcile collect apply_desired
    retire_absent admit_desired new activate set_mode sort snapshot
first_published = refl

backend_instances-Published_example : backend_instances first_state ≢ none
backend_instances-Published_example =
    backend_instances-Published uris first_state (starts 5 config first_published)
