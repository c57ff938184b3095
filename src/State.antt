-- ===== src/State.antt =====
-- The durable modes of backends (src/backend_state.rs): a file of fences, one for each backend that is
-- not active, and the view of it in memory. `to_json` and `from_json` are serde_json; a call of the
-- file system is its outcome, and of its files only the one that the store reads is kept.
pub mod Durable
mod Tests
use mistralrs_proxy.Prelude.{
  ℕ, ◌==◌, not, ◌&&◌, Bool, true, false, Option, none, some, List, [], ◌∷◌, ◌++◌, if◌then◌else◌,
  Str,
}
use mistralrs_proxy.Prelude.Maps.{Map, lookup, insert, remove}
use mistralrs_proxy.Backend.Slot.{BackendMode, active, draining, disabled, mode_eq, Result, ok, err}

abbrev pub state_schema_version : ℕ
state_schema_version = 1

pub record PersistedBackend : Type 0 where
  pub mode : BackendMode
  pub changed_at_unix_ms : ℕ

pub record StateFile : Type 0 where
  pub schema_version : ℕ
  pub backends : Map PersistedBackend

-- `StateFile::default`.
abbrev pub empty_file : StateFile
empty_file = record { schema_version = state_schema_version; backends = [] }

pub data StateError : Type 0 where
  unsupported_version : ℕ → StateError
  empty_id : StateError
  stores_active : Str → StateError
  -- `serde_json` and the file system.
  unreadable unparsable unwritable : StateError

unfoldable pub check_backends : Map PersistedBackend → Option StateError
check_backends [] = none
check_backends (([], p) ∷ rest) = some empty_id
check_backends ((b ∷ bs, p) ∷ rest) =
    if mode_eq p.mode active then some (stores_active (b ∷ bs)) else check_backends rest

unfoldable pub validate : StateFile → Option StateError
unfolding check_backends
validate state =
    if not (state.schema_version == state_schema_version)
    then some (unsupported_version state.schema_version)
    else check_backends state.backends

-- Which calls of `save_file` succeed.
pub record FileSystem : Type 0 where
  pub directory_created : Bool
  pub opened : Bool
  pub written : Bool
  pub synced : Bool
  pub hardened : Bool
  pub renamed : Bool
  pub directory_synced : Bool

-- The file of the store, and its view in memory.
pub record BackendStateStore : Type 0 where
  pub file : Option (List ℕ)
  pub state : StateFile

-- The temporary file is not kept: it is renamed or removed.
unfoldable pub write_file :
    FileSystem → List ℕ → Option (List ℕ) → Result (Unit {0}) StateError × Option (List ℕ)
write_file fs json file =
    if not fs.directory_created
    then (err unwritable, file)
    else if not fs.opened
    then (err unwritable, file)
    else if not (fs.written && fs.synced && fs.hardened && fs.renamed)
    then (err unwritable, file)
    else if not fs.directory_synced
    then (err unwritable, some json)
    else (ok tt, some json)

-- The `match` on the mode, at the time `now`.
unfoldable pub fence : ℕ → Str → BackendMode → StateFile → StateFile
fence now id active state = record state { backends = remove id state.backends }
fence now id mode state = record state {
  backends = insert id (record { mode = mode; changed_at_unix_ms = now }) state.backends;
}

abbrev keep_or_roll_back :
    StateFile
    → StateFile
    → Result (Unit {0}) StateError × Option (List ℕ)
    → Result (Unit {0}) StateError × BackendStateStore
keep_or_roll_back previous state (ok tt, file) = (ok tt, record { file = file; state = state })
keep_or_roll_back previous state (err e, file) = (err e, record { file = file; state = previous })

module _ (from_json : List ℕ → Option StateFile) where
  unfoldable pub read_file : Option (List ℕ) → Result StateFile StateError
  unfolding validate
  read_file none = ok empty_file
  read_file (some contents) = elim (from_json contents) [
    | none ↦ err unparsable
    | some state ↦ elim (validate state) [ none ↦ ok state | some e ↦ err e ]
  ]

  -- `readable` is false for a read error other than a missing file.
  unfoldable pub load : Bool → Option (List ℕ) → Result BackendStateStore StateError
  unfolding read_file
  load readable file = if not readable then err unreadable else elim (read_file file) [
    | ok state ↦ ok (record { file = file; state = state })
    | err e ↦ err e
  ]

module _ (to_json : StateFile → Option (List ℕ)) where
  unfoldable pub save_file :
      FileSystem → StateFile → Option (List ℕ) → Result (Unit {0}) StateError × Option (List ℕ)
  unfolding validate write_file
  save_file fs state file = elim (validate state) [
    | some e ↦ (err e, file)
    | none ↦ elim (to_json state) [
      | none ↦ (err unwritable, file)
      | some json ↦ write_file fs (json ++ (b'\n' ∷ [])) file
    ]
  ]

  unfoldable pub store_mode :
      FileSystem
      → ℕ
      → Str
      → BackendMode
      → BackendStateStore
      → Result (Unit {0}) StateError × BackendStateStore
  unfolding fence save_file
  store_mode fs now id mode store =
      let state = fence now id mode store.state in
      keep_or_roll_back store.state state (save_file fs state store.file)

-- The mode of a backend in `modes()`, where a missing one is active.
abbrev mode_or_active : Option PersistedBackend → BackendMode
mode_or_active none = active
mode_or_active (some p) = p.mode

unfoldable pub modes_of : Map PersistedBackend → Map BackendMode
modes_of [] = []
modes_of ((id, p) ∷ rest) = (id, p.mode) ∷ modes_of rest

unfoldable pub modes : StateFile → Map BackendMode
unfolding modes_of
modes state = modes_of state.backends

unfoldable pub durable_mode : Str → StateFile → BackendMode
durable_mode id state = mode_or_active (lookup id state.backends)
