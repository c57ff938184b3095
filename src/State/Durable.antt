-- ===== src/State/Durable.antt =====
-- What a change of a durable mode leaves in the file and in memory (src/backend_state.rs).
use mistralrs_proxy.Prelude.{
  ℕ, ◌≡◌, refl, ◌≢◌, ◌⊎◌, inl, inr, true, false, Option, none, some, List, [], ◌∷◌, ◌++◌, arith,
  Option-cases, if◌then◌else◌, Str, str_eq,
}
use mistralrs_proxy.Prelude.Maps.{Map, insert, remove, lookup-insert, lookup-remove}
use mistralrs_proxy.Backend.Slot.{BackendMode, active, draining, disabled, ok, err}
use mistralrs_proxy.State.{
  PersistedBackend, StateFile, StateError, check_backends, validate, FileSystem, BackendStateStore,
  read_file, write_file, save_file, fence, store_mode, durable_mode,
}

-- The mode that `modes()` shows after a fence is set or removed.
pub durable_mode-fence :
    (now : ℕ) (id j : Str) (mode : BackendMode) (state : StateFile)
    → durable_mode j (fence now id mode state)
      ≡ (if str_eq id j then mode else durable_mode j state)
unfolding durable_mode fence
durable_mode-fence now id j active state = ground (arith, lookup-remove id j state.backends)
durable_mode-fence now id j draining state = ground (
  arith,
  lookup-insert id j (record { mode = draining; changed_at_unix_ms = now }) state.backends,
)
durable_mode-fence now id j disabled state = ground (
  arith,
  lookup-insert id j (record { mode = disabled; changed_at_unix_ms = now }) state.backends,
)

check_backends-insert :
    (id : Str) (p : PersistedBackend) (m : Map PersistedBackend)
    → id ≢ []
    → p.mode ≢ active
    → check_backends m ≡ none
    → check_backends (insert id p m) ≡ none
unfolding check_backends insert
check_backends-insert [] p m h n c = absurd (h refl)
check_backends-insert (b ∷ bs) p [] h n c = ground arith
check_backends-insert (b ∷ bs) p (([], q) ∷ m) h n c = absurd (ground arith)
check_backends-insert (b ∷ bs) p ((d ∷ ds, q) ∷ m) h n c =
    ground (arith, check_backends-insert (b ∷ bs) p m h n)

check_backends-remove :
    (id : Str) (m : Map PersistedBackend)
    → check_backends m ≡ none
    → check_backends (remove id m) ≡ none
unfolding check_backends remove
check_backends-remove id [] c = refl
check_backends-remove id (([], q) ∷ m) c = absurd (ground arith)
check_backends-remove id ((d ∷ ds, q) ∷ m) c = ground (arith, check_backends-remove id m)

-- A state that validates still does after any change of a backend with an id.
pub validate-fence :
    (now : ℕ) (id : Str) (mode : BackendMode) (state : StateFile)
    → id ≢ []
    → validate state ≡ none
    → validate (fence now id mode state) ≡ none
unfolding validate fence
validate-fence now id active state h v = ground (arith, check_backends-remove id state.backends)
validate-fence now id draining state h v = ground (
  arith,
  check_backends-insert id (record { mode = draining; changed_at_unix_ms = now }) state.backends h
      (λ e. ground arith),
)
validate-fence now id disabled state h v = ground (
  arith,
  check_backends-insert id (record { mode = disabled; changed_at_unix_ms = now }) state.backends h
      (λ e. ground arith),
)

-- What a change of a mode makes of the state in memory.
pub store_mode-cases :
    (to_json : StateFile → Option (List ℕ)) (fs : FileSystem) (now : ℕ) (id : Str)
    (mode : BackendMode) (store : BackendStateStore)
    → (((store_mode to_json fs now id mode store).0 ≡ ok tt)
        × ((store_mode to_json fs now id mode store).1.state ≡ fence now id mode store.state))
      ⊎ ((x : StateError) × ((store_mode to_json fs now id mode store).0 ≡ err x)
          × ((store_mode to_json fs now id mode store).1.state ≡ store.state))
unfolding store_mode save_file write_file
store_mode-cases to_json fs now id mode store =
    let next = fence now id mode store.state in
    elim (Option-cases (validate next)) [
      | inr (x, bad) ↦ ground arith
      | inl valid ↦ elim (Option-cases (to_json next)) [
        | inl bad ↦ ground arith
        | inr (json, written) ↦ ground arith
      ]
    ]

-- What `serde_json` documents of the text that it writes, with the newline that the store adds.
pub record RoundTrips (to_json : StateFile → Option (List ℕ))
    (from_json : List ℕ → Option StateFile) : Type 0 where
  pub parsed :
      (state : StateFile) (json : List ℕ)
      → to_json state ≡ some json
      → from_json (json ++ (b'\n' ∷ [])) ≡ some state

module _ (to_json : StateFile → Option (List ℕ)) (from_json : List ℕ → Option StateFile) where
  -- After a change that reports success the file reads back as the state in memory, which
  -- shows the new mode of that backend and the old one of every other.
  pub store_mode-ok :
      (fs : FileSystem) (now : ℕ) (id : Str) (mode : BackendMode) (store after : BackendStateStore)
      → RoundTrips to_json from_json
      → store_mode to_json fs now id mode store ≡ (ok tt, after)
      → (read_file from_json after.file ≡ ok after.state)
        × ((j : Str)
            → durable_mode j after.state
              ≡ (if str_eq id j then mode else durable_mode j store.state))
  unfolding store_mode save_file write_file read_file
  store_mode-ok fs now id mode store after laws e =
      let next = fence now id mode store.state in
      elim (Option-cases (validate next)) [
        | inl valid ↦ elim (Option-cases (to_json next)) [
          | inl bad ↦ absurd (ground arith)
          | inr (json, written) ↦
              let parsed = laws.parsed next json written in
              let same : after.state ≡ next = ground arith in
              (ground arith, λ j. rw same (durable_mode-fence now id j mode store.state))
        ]
        | inr (x, bad) ↦ absurd (ground arith)
      ]

  -- A change that reports an error leaves the state in memory as it was, and the file too, unless the
  -- file was renamed into place and only the sync of its directory failed: then it has the new state.
  pub store_mode-err :
      (fs : FileSystem) (now : ℕ) (id : Str) (mode : BackendMode) (store after : BackendStateStore)
      (x : StateError)
      → RoundTrips to_json from_json
      → store_mode to_json fs now id mode store ≡ (err x, after)
      → (after.state ≡ store.state)
        × ((after.file ≡ store.file)
            ⊎ ((fs.renamed ≡ true)
                × (fs.directory_synced ≡ false)
                × (read_file from_json after.file ≡ ok (fence now id mode store.state))))
  unfolding store_mode save_file write_file read_file
  store_mode-err fs now id mode store after x laws e =
      let next = fence now id mode store.state in
      elim (Option-cases (validate next)) [
        | inl valid ↦ elim (Option-cases (to_json next)) [
          | inl bad ↦ (ground arith, inl (ground arith))
          | inr (json, written) ↦ let parsed = laws.parsed next json written in ground arith
        ]
        | inr (y, bad) ↦ (ground arith, inl (ground arith))
      ]
