-- ===== src/Backend/Slot/Ends.antt =====
-- Calls that release the leases of a slot that drains (src/backend.rs).
use mistralrs_proxy.Prelude.{
  ℕ, inl, inr, ap, ◌∙◌, ◌++◌, Bool-cases, ◌+◌, ◌≤◌, ◌<◌, ◌≡◌, refl, true, List, [], ◌∷◌, subst,
  arith, length, u64_max,
}
use mistralrs_proxy.Prelude.Monad.{returned}
use mistralrs_proxy.Backend.Leases.{
  LeaseKey, key_eq, has, remove, Fresh, Distinct, remove-Distinct, length-remove, not-has_of_Fresh,
}
use mistralrs_proxy.Backend.Slot.{
  draining, BackendSlot, try_acquire, release, Call, try_acquires, releases, step, run_clean,
}

abbrev after_release : List LeaseKey → BackendSlot → BackendSlot
after_release ks t = record {
  state = record t.state { sequence = t.sequence + 1; leases = ks };
  changed = t.sequence + 1;
}

remove-middle :
    (k : LeaseKey) (earlier later : List LeaseKey)
    → Distinct (earlier ++ (k ∷ later))
    → (has k (earlier ++ (k ∷ later)) ≡ true)
      × (remove k (earlier ++ (k ∷ later)) ≡ earlier ++ later)
unfolding has remove
remove-middle k [] later d = (ground arith, ground arith)
remove-middle k (j ∷ earlier) later (fresh, d) =
    let (held, left) = remove-middle k earlier later d in
    elim (Bool-cases (key_eq k j)) [
      | inl same ↦ absurd (
          ground (
            arith,
            held,
            not-has_of_Fresh k (earlier ++ (k ∷ later))
                (subst (λ n. Fresh n (earlier ++ (k ∷ later))) (ground arith) fresh),
          ))
      | inr other ↦ (ground arith, ground arith)
    ]

release-middle :
    (k : LeaseKey) (earlier later : List LeaseKey) (t : BackendSlot)
    → t.leases ≡ earlier ++ (k ∷ later)
    → Distinct (earlier ++ (k ∷ later))
    → t.sequence < u64_max
    → step (releases k) t ≡ returned tt (after_release (earlier ++ later) t)
unfolding step release
release-middle k earlier later t e d h =
    let (held, left) = remove-middle k earlier later d in
    ground (arith, ap (has k) e ∙ held, ap (remove k) e ∙ left)

try_acquire-draining :
    (now : ℕ) (t : BackendSlot) → t.mode ≡ draining → step (try_acquires now) t ≡ returned tt t
unfolding step try_acquire
try_acquire-draining now t m = ground arith

-- Calls that release these leases, each once and in any order, with attempts to acquire another one
-- anywhere between.
pub data Ends : List LeaseKey → List Call → Type 0 where
  ended : Ends [] []
  attempted :
      {ks : List LeaseKey} {cs : List Call} (now : ℕ) → Ends ks cs → Ends ks (try_acquires now ∷ cs)
  released :
      {ks : List LeaseKey} {cs : List Call} (k : LeaseKey) (earlier later : List LeaseKey)
      → ks ≡ earlier ++ (k ∷ later)
      → Ends (earlier ++ later) cs
      → Ends ks (releases k ∷ cs)

pub release_all :
    (ks : List LeaseKey) (cs : List Call) (t : BackendSlot)
    → Ends ks cs
    → t.leases ≡ ks
    → Distinct ks
    → t.mode ≡ draining
    → length ks + t.sequence ≤ u64_max
    → (w : BackendSlot) × (run_clean cs t ≡ returned tt w)
      × (w.leases ≡ [])
      × (w.mode ≡ draining)
      × (w.mode_epoch ≡ t.mode_epoch)
      × (w.total_acquired ≡ t.total_acquired)
unfolding run_clean
release_all _ _ t ended e d m h = (t, refl, e, m, refl, refl)
release_all ks _ t (attempted {cs = cs} now rest) e d m h =
    let (w, r, l, n, p, g) = release_all ks cs t rest e d m h in
    (w, rw (try_acquire-draining now t m) r, l, n, p, g)
release_all ks _ t (released {cs = cs} k earlier later split rest) e d m h =
    let d' = subst Distinct split d in
    let (held, left) = remove-middle k earlier later d' in
    let shorter = length-remove k (earlier ++ (k ∷ later)) held in
    let (w, r, l, n, p, g) =
      release_all (earlier ++ later) cs (after_release (earlier ++ later) t) rest refl
        (subst Distinct left (remove-Distinct k (earlier ++ (k ∷ later)) d')) m
        (omega (arith, ap length split, shorter, ap length left)) in
    (
      w,
      rw (release-middle k earlier later t (e ∙ split) d' (omega (arith, ap length split, shorter)))
          r,
      l,
      n,
      p,
      g,
    )
