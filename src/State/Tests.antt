-- ===== src/State/Tests.antt =====
-- Changes of a durable mode on a concrete store, whose text holds one backend with an id of one byte.
use mistralrs_proxy.Prelude.{
  ℕ, ◌≡◌, ◌==◌, refl, sym, ◌⊎◌, true, false, Option, none, some, List, [], ◌∷◌, ◌++◌, arith,
  if◌then◌else◌, Str, str_eq,
}
use mistralrs_proxy.Prelude.Maps.{Map, insert}
use mistralrs_proxy.Backend.Slot.{BackendMode, active, draining, disabled, ok}
use mistralrs_proxy.State.{
  PersistedBackend, StateFile, empty_file, unwritable, check_backends, validate, FileSystem,
  BackendStateStore, read_file, write_file, save_file, fence, store_mode, durable_mode,
}
use mistralrs_proxy.State.Durable.{RoundTrips, store_mode-ok, store_mode-err}

abbrev mode_code : BackendMode → ℕ
mode_code active = 0
mode_code draining = 1
mode_code disabled = 2

abbrev mode_at : ℕ → BackendMode
mode_at n = if n == 0 then active else if n == 1 then draining else disabled

abbrev backend_text : ℕ → Map PersistedBackend → Option (List ℕ)
backend_text version ((c ∷ [], p) ∷ []) =
    some (version ∷ c ∷ mode_code p.mode ∷ p.changed_at_unix_ms ∷ [])
backend_text version _ = none

abbrev to_text : StateFile → Option (List ℕ)
to_text s = backend_text s.schema_version s.backends

abbrev from_text : List ℕ → Option StateFile
from_text (version ∷ c ∷ mode ∷ at ∷ newline ∷ []) = some (record {
  schema_version = version;
  backends = (c ∷ [], record { mode = mode_at mode; changed_at_unix_ms = at }) ∷ [];
})
from_text _ = none

mode_at-mode_code : (mode : BackendMode) → mode_at (mode_code mode) ≡ mode
mode_at-mode_code active = refl
mode_at-mode_code draining = refl
mode_at-mode_code disabled = refl

backend_text-parsed :
    (version : ℕ) (m : Map PersistedBackend) (json : List ℕ)
    → backend_text version m ≡ some json
    → from_text (json ++ (b'\n' ∷ [])) ≡ some (record { schema_version = version; backends = m })
backend_text-parsed version [] json e = absurd (ground arith)
backend_text-parsed version (([], p) ∷ m) json e = absurd (ground arith)
backend_text-parsed version ((c ∷ d ∷ ds, p) ∷ m) json e = absurd (ground arith)
backend_text-parsed version ((c ∷ [], p) ∷ q ∷ m) json e = absurd (ground arith)
backend_text-parsed version ((c ∷ [], p) ∷ []) json e =
    let same : version ∷ c ∷ mode_code p.mode ∷ p.changed_at_unix_ms ∷ [] ≡ json = ground arith in
    rw (sym same) (rw (mode_at-mode_code p.mode) refl)

texts : RoundTrips to_text from_text
texts = record { parsed = λ s json e. backend_text-parsed s.schema_version s.backends json e }

abbrev id_a : Str
id_a = b'a' ∷ []

abbrev all_well : FileSystem
all_well = record {
  directory_created = true;
  opened = true;
  written = true;
  synced = true;
  hardened = true;
  renamed = true;
  directory_synced = true;
}

abbrev before : BackendStateStore
before = record { file = none; state = empty_file }

abbrev drained : StateFile
drained = record {
  schema_version = 1;
  backends = (id_a, record { mode = draining; changed_at_unix_ms = 70 }) ∷ [];
}

abbrev drained_text : Option (List ℕ)
drained_text = some (1 ∷ b'a' ∷ 1 ∷ 70 ∷ b'\n' ∷ [])

store_mode-ok_example :
    (read_file from_text drained_text ≡ ok drained)
    × ((j : Str)
        → durable_mode j drained ≡ (if str_eq id_a j then draining else durable_mode j empty_file))
unfolding store_mode save_file write_file validate check_backends fence insert
store_mode-ok_example =
    store_mode-ok to_text from_text all_well 70 id_a draining before
      (record { file = drained_text; state = drained }) texts refl

-- The directory could not be synced: the file has the new state and memory the old one.
store_mode-err_example :
    (empty_file ≡ empty_file)
    × ((drained_text ≡ none)
        ⊎ ((true ≡ true)
            × (false ≡ false)
            × (read_file from_text drained_text ≡ ok (fence 70 id_a draining empty_file))))
unfolding store_mode save_file write_file validate check_backends fence insert
store_mode-err_example =
    store_mode-err to_text from_text (record all_well { directory_synced = false }) 70 id_a draining
      before (record { file = drained_text; state = empty_file }) unwritable texts refl
