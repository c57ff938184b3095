-- ===== src/Runtime/Config.antt =====
-- `RuntimeConfig::parse` of src/runtime.rs, from the file that `toml` reads: the controls, the ids and the
-- URLs of the backends.
use mistralrs_proxy.Prelude.{
  ℕ, ◌==◌, leb, ltb, Bool, true, false, not, ◌&&◌, ◌||◌, Option, none, some, List, [], ◌∷◌, ◌++◌,
  if◌then◌else◌, length, Str, str_eq, codes,
}
use mistralrs_proxy.Backend.Slot.{Result, ok, err}
use mistralrs_proxy.Runtime.{
  runtime_schema_version, Backend, RuntimeConfig, BackendFile, RuntimeFile, UriOps,
}

-- The controls that must be positive.
pub data ControlName : Type 0 where
  scrape_interval scrape_timeout stale_after probe_interval probe_timeout : ControlName

pub data UrlField : Type 0 where
  url metrics_url readiness_url : UrlField

pub data UrlReason : Type 0 where
  not_a_uri not_http no_host user_information has_query no_scheme no_authority not_built : UrlReason

-- `RuntimeConfigError`, with the texts of `Validation` by what they say.
pub data RuntimeConfigError : Type 0 where
  unreadable unparsable : RuntimeConfigError
  unsupported_schema : ℕ → RuntimeConfigError
  no_backends kv_soft_limit_range : RuntimeConfigError
  must_be_positive : ControlName → RuntimeConfigError
  stale_before_scrape thresholds_positive id_length : RuntimeConfigError
  id_characters repeated_id capacity_positive : Str → RuntimeConfigError
  invalid_backend_url : Str → UrlField → Str → UrlReason → RuntimeConfigError

abbrev first_zero : List (ControlName × ℕ) → Option RuntimeConfigError
first_zero [] = none
first_zero ((name, value) ∷ rest) =
    if value == 0 then some (must_be_positive name) else first_zero rest

unfoldable pub validate_controls :
    {F : Type 0} → (F → Bool) → RuntimeFile F → Option RuntimeConfigError
validate_controls in_soft_range file =
    if not (in_soft_range file.routing.kv_soft_limit)
    then some kv_soft_limit_range
    else elim (first_zero (
        (scrape_interval, file.telemetry.scrape_interval_ms)
        ∷ (scrape_timeout, file.telemetry.scrape_timeout_ms)
        ∷ (stale_after, file.telemetry.stale_after_ms)
        ∷ (probe_interval, file.readiness.probe_interval_ms)
        ∷ (probe_timeout, file.readiness.probe_timeout_ms)
        ∷ [])) [
          | some e ↦ some e
          | none ↦
              if ltb file.telemetry.stale_after_ms file.telemetry.scrape_interval_ms
              then some stale_before_scrape
              else if file.readiness.success_threshold == 0 || file.readiness.failure_threshold == 0
              then some thresholds_positive
              else none
        ]

abbrev pub is_id_byte : ℕ → Bool
is_id_byte b =
    (leb b'a' b && leb b b'z')
    || ((leb b'A' b && leb b b'Z')
        || ((leb b'0' b && leb b b'9') || (b == b'-' || (b == b'_' || b == b'.'))))

abbrev pub all_bytes : (ℕ → Bool) → Str → Bool
all_bytes p [] = true
all_bytes p (b ∷ bs) = p b && all_bytes p bs

unfoldable pub validate_backend_id : Str → Option RuntimeConfigError
validate_backend_id id =
    if length id == 0 || ltb 64 (length id)
    then some id_length
    else if not (all_bytes is_id_byte id)
    then some (id_characters id)
    else none

abbrev pub contains_byte : ℕ → Str → Bool
contains_byte c [] = false
contains_byte c (b ∷ bs) = b == c || contains_byte c bs

abbrev pub contains_id : Str → List Str → Bool
contains_id id [] = false
contains_id id (j ∷ js) = str_eq id j || contains_id id js

abbrev pub drop_slashes : Str → Str
drop_slashes [] = []
drop_slashes (b ∷ bs) = if b == b'/' then drop_slashes bs else b ∷ bs

abbrev pub is_empty : Str → Bool
is_empty [] = true
is_empty (b ∷ bs) = false

-- `trim_end_matches('/')`.
abbrev pub trim_slashes : Str → Str
trim_slashes [] = []
trim_slashes (b ∷ bs) =
    let rest = trim_slashes bs in if b == b'/' && is_empty rest then [] else b ∷ rest

abbrev pub is_http : Option Str → Bool
is_http none = false
is_http (some scheme) = str_eq scheme (codes "http")

abbrev pub is_absent : Option Str → Bool
is_absent none = true
is_absent (some s) = false

module _ {U : Type 0} (uris : UriOps U) where
  unfoldable pub validate_uri : U → Option UrlReason
  validate_uri uri =
      if not (is_http (uris.scheme uri)) then some not_http else elim (uris.authority uri) [
        | none ↦ some no_host
        | some authority ↦
            if contains_byte b'@' authority
            then some user_information
            else if not (is_absent (uris.query uri))
            then some has_query
            else none
      ]

  unfoldable pub parse_backend_url : Str → UrlField → Str → Result U RuntimeConfigError
  unfolding validate_uri
  parse_backend_url id field value = elim (uris.parse value) [
    | none ↦ err (invalid_backend_url id field value not_a_uri)
    | some uri ↦ elim (validate_uri uri) [
      | some reason ↦ err (invalid_backend_url id field value reason)
      | none ↦ ok uri
    ]
  ]

  unfoldable pub append_path : U → Str → Result U UrlReason
  append_path base suffix =
      let path = trim_slashes (uris.path base) ++ (b'/' ∷ drop_slashes suffix) in
      elim (uris.scheme base) [
        | none ↦ err no_scheme
        | some scheme ↦ elim (uris.authority base) [
          | none ↦ err no_authority
          | some authority ↦ elim (uris.build scheme authority path) [
            | none ↦ err not_built
            | some uri ↦ ok uri
          ]
        ]
      ]

  -- A URL that the file gives, or the default below the URL of the backend.
  unfoldable pub url_or_default :
      Str → UrlField → U → Option Str → Str → Result U RuntimeConfigError
  unfolding parse_backend_url append_path
  url_or_default id field base (some value) suffix = parse_backend_url id field value
  url_or_default id field base none suffix = elim (append_path base suffix) [
    | err reason ↦ err (invalid_backend_url id field (uris.to_string base) reason)
    | ok uri ↦ ok uri
  ]

  abbrev is_some_zero : Option ℕ → Bool
  is_some_zero none = false
  is_some_zero (some n) = n == 0

  -- One round of the loop, after the check of the id.
  unfoldable pub read_backend : BackendFile → Result (Backend U) RuntimeConfigError
  unfolding parse_backend_url url_or_default
  read_backend raw = elim (parse_backend_url raw.id UrlField.url raw.url) [
    | err e ↦ err e
    | ok base ↦
        elim (url_or_default raw.id UrlField.metrics_url base raw.metrics_url (codes "/metrics")) [
          | err e ↦ err e
          | ok metrics ↦
              elim (url_or_default raw.id UrlField.readiness_url base raw.readiness_url
                (codes "/v1/models")) [
                  | err e ↦ err e
                  | ok readiness ↦
                      if is_some_zero raw.capacity
                      then err (capacity_positive raw.id)
                      else ok (record {
                        id = raw.id;
                        url = base;
                        metrics_url = metrics;
                        readiness_url = readiness;
                        capacity = raw.capacity;
                      })
                ]
        ]
  ]

  -- The loop; `ids` are those of the rounds before.
  unfoldable pub read_backends :
      List Str → List BackendFile → Result (List (Backend U)) RuntimeConfigError
  unfolding validate_backend_id read_backend
  read_backends ids [] = ok []
  read_backends ids (raw ∷ later) =
      let rest = read_backends (raw.id ∷ ids) later in
      elim (validate_backend_id raw.id) [
        | some e ↦ err e
        | none ↦
            if contains_id raw.id ids then err (repeated_id raw.id) else elim (read_backend raw) [
              | err e ↦ err e
              | ok backend ↦ elim rest [ err e ↦ err e | ok backends ↦ ok (backend ∷ backends) ]
            ]
      ]

  -- `parse`, once `toml` has read the file.
  unfoldable pub parse_file :
      {F : Type 0} → (F → Bool) → RuntimeFile F → Result (RuntimeConfig U F) RuntimeConfigError
  unfolding validate_controls read_backends
  parse_file in_soft_range file =
      if not (file.schema_version == runtime_schema_version)
      then err (unsupported_schema file.schema_version)
      else elim file.backends [
        | [] ↦ err no_backends
        | raw ∷ later ↦ elim (validate_controls in_soft_range file) [
          | some e ↦ err e
          | none ↦ elim (read_backends [] (raw ∷ later)) [
            | err e ↦ err e
            | ok backends ↦ ok (record {
              backends = backends;
              routing = file.routing;
              telemetry = file.telemetry;
              readiness = file.readiness;
              registration = file.registration;
              openwebui = file.openwebui;
            })
          ]
        ]
      ]

  unfoldable pub parse :
      {F : Type 0}
      → (F → Bool)
      → (Str → Option (RuntimeFile F))
      → Str
      → Result (RuntimeConfig U F) RuntimeConfigError
  unfolding parse_file
  parse in_soft_range from_toml contents = elim (from_toml contents) [
    | none ↦ err unparsable
    | some file ↦ parse_file in_soft_range file
  ]
