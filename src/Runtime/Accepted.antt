-- ===== src/Runtime/Accepted.antt =====
-- What a configuration that was accepted satisfies (src/runtime.rs), and what a reconciliation of the
-- registry may then rely on.
use mistralrs_proxy.Prelude.{
  ℕ, ◌⊎◌, codes, ◌≤◌, ◌<◌, ◌≡◌, refl, sym, ap, subst, ◌∙◌, ◌≢◌, inl, inr, Bool, true, false, none,
  some, List, [], ◌∷◌, arith, All, Bool-cases, Option-cases, length, Str,
}
use mistralrs_proxy.Backend.Slot.{ok, Result-cases}
use mistralrs_proxy.Runtime.{Backend, RuntimeConfig, BackendFile, RuntimeFile, UriOps}
use mistralrs_proxy.Runtime.Config.{
  validate_controls, is_id_byte, all_bytes, validate_backend_id, contains_id, UrlField,
  url_or_default, parse_backend_url, read_backend, read_backends, parse_file,
}
use mistralrs_proxy.Runtime.Plain.{
  IsPlain, IsBelow, parse_backend_url-IsPlain, url_or_default-IsPlain,
}

-- A letter, a digit, `-`, `_` or `.`.
abbrev pub IsIdByte : ℕ → Type 0
IsIdByte c =
    ((b'a' ≤ c) × (c ≤ b'z'))
    ⊎ (((b'A' ≤ c) × (c ≤ b'Z'))
        ⊎ (((b'0' ≤ c) × (c ≤ b'9')) ⊎ ((c ≡ b'-') ⊎ ((c ≡ b'_') ⊎ (c ≡ b'.')))))

is_id_byte-IsIdByte : (c : ℕ) → is_id_byte c ≡ true → IsIdByte c
is_id_byte-IsIdByte c h = ground arith

all_bytes-IsIdByte : (id : Str) → all_bytes is_id_byte id ≡ true → All IsIdByte id
all_bytes-IsIdByte [] h = tt
all_bytes-IsIdByte (c ∷ id) h =
    (is_id_byte-IsIdByte c (ground arith), all_bytes-IsIdByte id (ground arith))

module _ {U : Type 0} (uris : UriOps U) where
  -- A backend with an id of the allowed bytes, a plain HTTP URL, others that are plain or below it, and
  -- a capacity that is not zero.
  pub record IsBackend (b : Backend U) : Type 0 where
    pub id_short : (0 < length b.id) × (length b.id ≤ 64)
    pub id_plain : All IsIdByte b.id
    pub url_plain : IsPlain uris b.url
    pub metrics_plain :
        IsPlain uris b.metrics_url ⊎ IsBelow uris b.url (codes "/metrics") b.metrics_url
    pub readiness_plain :
        IsPlain uris b.readiness_url ⊎ IsBelow uris b.url (codes "/v1/models") b.readiness_url
    pub capacity_positive : b.capacity ≢ some 0

  abbrev pub Unrepeated : List Str → List (Backend U) → Type 0
  Unrepeated ids [] = Unit
  Unrepeated ids (b ∷ bs) = (contains_id b.id ids ≡ false) × Unrepeated (b.id ∷ ids) bs

  pub record IsAccepted {F : Type 0} (in_soft_range : F → Bool) (c : RuntimeConfig U F)
      : Type 0 where
    pub some_backend : c.backends ≢ []
    pub backends_valid : All IsBackend c.backends
    pub ids_distinct : Unrepeated [] c.backends
    pub soft_limit : in_soft_range c.routing.kv_soft_limit ≡ true
    pub intervals :
        (0 < c.telemetry.scrape_interval_ms)
        × (0 < c.telemetry.scrape_timeout_ms)
        × (0 < c.readiness.probe_interval_ms)
        × (0 < c.readiness.probe_timeout_ms)
    pub stale_late : c.telemetry.scrape_interval_ms ≤ c.telemetry.stale_after_ms
    pub thresholds : (0 < c.readiness.success_threshold) × (0 < c.readiness.failure_threshold)

  read_backend-IsBackend :
      (raw : BackendFile) (b : Backend U)
      → validate_backend_id raw.id ≡ none
      → read_backend uris raw ≡ ok b
      → (b.id ≡ raw.id) × IsBackend b
  unfolding read_backend validate_backend_id
  read_backend-IsBackend raw b valid e =
      elim (Result-cases (parse_backend_url uris raw.id UrlField.url raw.url)) [
        | inr (x, bad) ↦ absurd (ground arith)
        | inl (base, good) ↦
            let plain = parse_backend_url-IsPlain uris raw.id UrlField.url raw.url base good in
            elim (Result-cases (
              url_or_default uris raw.id UrlField.metrics_url base raw.metrics_url
                (codes "/metrics"))) [
                  | inr (x, bad) ↦ absurd (ground arith)
                  | inl (metrics, first) ↦
                      elim (Result-cases (
                        url_or_default uris raw.id UrlField.readiness_url base raw.readiness_url
                          (codes "/v1/models"))) [
                            | inr (x, bad) ↦ absurd (ground arith)
                            | inl (readiness, second) ↦
                                let m =
                                  url_or_default-IsPlain uris raw.id UrlField.metrics_url base
                                    metrics raw.metrics_url (codes "metrics") plain refl first in
                                let r =
                                  url_or_default-IsPlain uris raw.id UrlField.readiness_url base
                                    readiness raw.readiness_url (codes "v1/models") plain refl
                                    second in
                                let is_id : raw.id ≡ b.id = ground arith in
                                let is_base : base ≡ b.url = ground arith in
                                let is_metrics : metrics ≡ b.metrics_url = ground arith in
                                let is_readiness : readiness ≡ b.readiness_url = ground arith in
                                (
                                  sym is_id,
                                  record {
                                    id_short = rw (sym is_id) (ground arith);
                                    id_plain =
                                        subst (All IsIdByte) is_id
                                          (all_bytes-IsIdByte raw.id (ground arith));
                                    url_plain = subst (IsPlain uris) is_base plain;
                                    metrics_plain =
                                        subst
                                          (λ base'.
                                            IsPlain uris b.metrics_url
                                            ⊎ IsBelow uris base' (codes "/metrics") b.metrics_url)
                                          is_base
                                          (subst
                                            (λ u.
                                              IsPlain uris u
                                              ⊎ IsBelow uris base (codes "/metrics") u)
                                            is_metrics m);
                                    readiness_plain =
                                        subst
                                          (λ base'.
                                            IsPlain uris b.readiness_url
                                            ⊎ IsBelow uris base' (codes "/v1/models")
                                                b.readiness_url)
                                          is_base
                                          (subst
                                            (λ u.
                                              IsPlain uris u
                                              ⊎ IsBelow uris base (codes "/v1/models") u)
                                            is_readiness r);
                                    capacity_positive = λ zero. ground arith;
                                  },
                                )
                          ]
                ]
      ]

  read_backends-valid :
      (ids : List Str) (raws : List BackendFile) (bs : List (Backend U))
      → read_backends uris ids raws ≡ ok bs
      → All IsBackend bs × Unrepeated ids bs
  unfolding read_backends
  read_backends-valid ids [] bs e =
      let same : [] ≡ bs = ground arith in
      subst (λ xs. All IsBackend xs × Unrepeated ids xs) same (tt, tt)
  read_backends-valid ids (raw ∷ raws) bs e = elim (Option-cases (validate_backend_id raw.id)) [
    | inr (x, bad) ↦ absurd (ground arith)
    | inl plain ↦ elim (Bool-cases (contains_id raw.id ids)) [
      | inl repeated ↦ absurd (ground arith)
      | inr new ↦ elim (Result-cases (read_backend uris raw)) [
        | inr (x, bad) ↦ absurd (ground arith)
        | inl (b, good) ↦ elim (Result-cases (read_backends uris (raw.id ∷ ids) raws)) [
          | inr (x, bad) ↦ absurd (ground arith)
          | inl (later, read) ↦
              let (own, valid) = read_backend-IsBackend raw b plain good in
              let (all, distinct) = read_backends-valid (raw.id ∷ ids) raws later read in
              let same : b ∷ later ≡ bs = ground arith in
              subst (λ xs. All IsBackend xs × Unrepeated ids xs) same
                (
                  (valid, all),
                  (
                    ap (λ i. contains_id i ids) own ∙ new,
                    subst (λ i. Unrepeated (i ∷ ids) later) (sym own) distinct,
                  ),
                )
        ]
      ]
    ]
  ]

  validate_controls-none :
      {F : Type 0} (in_soft_range : F → Bool) (file : RuntimeFile F)
      → validate_controls in_soft_range file ≡ none
      → (in_soft_range file.routing.kv_soft_limit ≡ true)
        × ((0 < file.telemetry.scrape_interval_ms)
            × (0 < file.telemetry.scrape_timeout_ms)
            × (0 < file.readiness.probe_interval_ms)
            × (0 < file.readiness.probe_timeout_ms))
        × (file.telemetry.scrape_interval_ms ≤ file.telemetry.stale_after_ms)
        × ((0 < file.readiness.success_threshold) × (0 < file.readiness.failure_threshold))
  unfolding validate_controls
  validate_controls-none in_soft_range file e = ground arith

  read_backends-nonempty :
      (raw : BackendFile) (raws : List BackendFile) → read_backends uris [] (raw ∷ raws) ≢ ok []
  unfolding read_backends
  read_backends-nonempty raw raws e = ground arith

  parse_file-nonempty :
      {F : Type 0} (in_soft_range : F → Bool) (file : RuntimeFile F) (c : RuntimeConfig U F)
      → parse_file uris in_soft_range file ≡ ok c
      → read_backends uris [] file.backends ≢ ok []
  unfolding parse_file
  parse_file-nonempty in_soft_range file c e none_read =
      elim file.backends as (λ xs. file.backends ≡ xs → ⊥) [
        | [] ↦ λ empty. ground arith
        | raw ∷ later ↦ λ shape.
            read_backends-nonempty raw later (ap (read_backends uris []) (sym shape) ∙ none_read)
      ]
        refl

  -- A configuration that is accepted satisfies `IsAccepted`: it has backends, with distinct ids that are
  -- well formed, URLs over HTTP with a host and neither user information nor a query (those of the metrics
  -- and the readiness may instead be built below the backend's), and no capacity of zero, and its controls
  -- are within their bounds.
  pub parse_file-IsAccepted :
      {F : Type 0} (in_soft_range : F → Bool) (file : RuntimeFile F) (c : RuntimeConfig U F)
      → parse_file uris in_soft_range file ≡ ok c
      → IsAccepted in_soft_range c
  unfolding parse_file
  parse_file-IsAccepted in_soft_range file c e =
      elim (Option-cases (validate_controls in_soft_range file)) [
        | inr (x, bad) ↦ absurd (ground arith)
        | inl fine ↦ elim (Result-cases (read_backends uris [] file.backends)) [
          | inr (x, bad) ↦ absurd (ground arith)
          | inl (bs, read) ↦
              let (soft, positive, late, counted) =
                validate_controls-none in_soft_range file fine in
              let (valid, distinct) = read_backends-valid [] file.backends bs read in
              let is : bs ≡ c.backends = ground arith in
              record {
                some_backend = λ empty.
                    parse_file-nonempty in_soft_range file c e
                      (read ∙ ap (λ xs. ok xs) (is ∙ empty));
                backends_valid = subst (All IsBackend) is valid;
                ids_distinct = subst (Unrepeated []) is distinct;
                soft_limit = ground arith;
                intervals = ground arith;
                stale_late = ground arith;
                thresholds = ground arith;
              }
        ]
      ]
