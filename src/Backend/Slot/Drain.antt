-- ===== src/Backend/Slot/Drain.antt =====
-- Drains of a slot (src/backend.rs): what a mode epoch certifies, and how a drain ends.
use mistralrs_proxy.Prelude.{
  ℕ, ◌+◌, ◌≤◌, ◌<◌, ◌≡◌, refl, ◌≢◌, ◌⊎◌, Bool, true, some, List, [], ◌∷◌, subst, arith, length,
  u64_max,
}
use mistralrs_proxy.Prelude.Monad.{Outcome, returned, panicked, bind_outcome, bind_outcome-returned}
use mistralrs_proxy.Backend.Leases.{LeaseKey, has, has_of_remove, Distinct}
use mistralrs_proxy.Backend.Slot.{
  BackendSpec, BackendMode, active, draining, BackendSlot, BackendSnapshot, DrainToken,
  DrainWaitError, ok, err, snapshot, grant, try_acquire, set_mode, activate, disable, begin_drain,
  wait_round, reconcile_present, reconcile_absent, release, Call, try_acquires, activates, disables,
  begin_drains, reconciles_present, reconciles_absent, releases, step, run_clean,
}
use mistralrs_proxy.Backend.Slot.Ends.{Ends, release_all}

-- What a history without panics does to a slot: the mode epoch does not fall, and while it stands
-- still the mode does too; unless the slot is active, it then grants no lease.
pub record Keeps (t u : BackendSlot) : Type 0 where
  pub epoch_grows : t.mode_epoch ≤ u.mode_epoch
  pub mode_kept : u.mode_epoch ≡ t.mode_epoch → u.mode ≡ t.mode
  pub none_granted :
      u.mode_epoch ≡ t.mode_epoch → t.mode ≢ active → u.total_acquired ≡ t.total_acquired
  pub leases_kept :
      u.mode_epoch ≡ t.mode_epoch
      → t.mode ≢ active
      → (k : LeaseKey) → has k u.leases ≡ true
      → has k t.leases ≡ true

Keeps-refl : (t : BackendSlot) → Keeps t t
Keeps-refl t = record {
  epoch_grows = omega arith;
  mode_kept = λ _. refl;
  none_granted = λ _ _. refl;
  leases_kept = λ _ _ k h. h;
}

Keeps-trans : {s t u : BackendSlot} → Keeps s t → Keeps t u → Keeps s u
Keeps-trans {s} {t} {u} p q = record {
  epoch_grows = omega (arith, p.epoch_grows, q.epoch_grows);
  mode_kept = λ e. ground arith;
  none_granted = λ e n. ground arith;
  leases_kept = λ e n k h.
      p.leases_kept (ground arith) n k (q.leases_kept (ground arith) (λ a. n (ground arith)) k h);
}

set_mode-Keeps :
    (now : ℕ) (mode : BackendMode) (required : Bool) (t u : BackendSlot) {r : _}
    → set_mode now mode required t ≡ returned r u
    → Keeps t u
unfolding set_mode
set_mode-Keeps now mode required t u e = record {
  epoch_grows = ground arith;
  mode_kept = ground arith;
  none_granted = ground arith;
  leases_kept = ground arith;
}

try_acquire-Keeps :
    (now : ℕ) (t u : BackendSlot) {r : _} → try_acquire now t ≡ returned r u → Keeps t u
unfolding try_acquire grant
try_acquire-Keeps now t u e = record {
  epoch_grows = ground arith;
  mode_kept = ground arith;
  none_granted = ground arith;
  leases_kept = ground arith;
}

begin_drain-Keeps : (t u : BackendSlot) {r : DrainToken} → begin_drain t ≡ returned r u → Keeps t u
unfolding begin_drain
begin_drain-Keeps t u e = record {
  epoch_grows = ground arith;
  mode_kept = ground arith;
  none_granted = ground arith;
  leases_kept = ground arith;
}

reconcile_present-Keeps :
    (spec : BackendSpec) (t u : BackendSlot) {r : _}
    → reconcile_present spec t ≡ returned r u
    → Keeps t u
unfolding reconcile_present
reconcile_present-Keeps spec t u e = record {
  epoch_grows = ground arith;
  mode_kept = ground arith;
  none_granted = ground arith;
  leases_kept = ground arith;
}

reconcile_absent-Keeps :
    (t u : BackendSlot) {r : Bool} → reconcile_absent t ≡ returned r u → Keeps t u
unfolding reconcile_absent
reconcile_absent-Keeps t u e = record {
  epoch_grows = ground arith;
  mode_kept = ground arith;
  none_granted = ground arith;
  leases_kept = ground arith;
}

release-Keeps :
    (k : LeaseKey) (t u : BackendSlot) {r : Unit {0}} → release k t ≡ returned r u → Keeps t u
unfolding release
release-Keeps k t u e = record {
  epoch_grows = ground arith;
  mode_kept = ground arith;
  none_granted = ground arith;
  leases_kept = λ _ _ j h. ground (arith, has_of_remove j k t.leases);
}

disable-Keeps :
    (now : ℕ) (t u : BackendSlot) {r : BackendSnapshot} → disable now t ≡ returned r u → Keeps t u
unfolding disable
disable-Keeps now t u e = record {
  epoch_grows = ground arith;
  mode_kept = ground arith;
  none_granted = ground arith;
  leases_kept = ground arith;
}

-- From a call to the step that forgets its result.
bind-Keeps {ℓ} :
    {A : Type ℓ} {t u : BackendSlot} (o : Outcome BackendSlot A) (f : A → Unit {0})
    → bind_outcome o (λ a v. returned (f a) v) ≡ returned tt u
    → ((a : A) → o ≡ returned a u → Keeps t u)
    → Keeps t u
bind-Keeps (returned a v) f e k = k a (ground arith)
bind-Keeps (panicked v) f e k = cc

step-Keeps : (c : Call) (t u : BackendSlot) → step c t ≡ returned tt u → Keeps t u
unfolding step activate disable
step-Keeps (try_acquires now) t u e =
    bind-Keeps (try_acquire now t) (λ _. tt) e (λ r h. try_acquire-Keeps now t u h)
step-Keeps (activates now) t u e =
    bind-Keeps (set_mode now active true t) (λ _. tt) e
      (λ r h. set_mode-Keeps now active true t u h)
step-Keeps (disables now) t u e =
    bind-Keeps (disable now t) (λ _. tt) e (λ r h. disable-Keeps now t u h)
step-Keeps begin_drains t u e =
    bind-Keeps (begin_drain t) (λ _. tt) e (λ r h. begin_drain-Keeps t u h)
step-Keeps (reconciles_present spec) t u e =
    bind-Keeps (reconcile_present spec t) (λ _. tt) e (λ r h. reconcile_present-Keeps spec t u h)
step-Keeps reconciles_absent t u e =
    bind-Keeps (reconcile_absent t) (λ _. tt) e (λ r h. reconcile_absent-Keeps t u h)
step-Keeps (releases k) t u e = release-Keeps k t u e

-- A history without panics: see `Keeps`.
pub run_clean-Keeps :
    (cs : List Call) (t u : BackendSlot) → run_clean cs t ≡ returned tt u → Keeps t u
unfolding run_clean
run_clean-Keeps [] t u e = subst (Keeps t) (ground arith) (Keeps-refl t)
run_clean-Keeps (c ∷ cs) t u e =
    let (_, v, p, q) = bind_outcome-returned (step c t) (λ _. run_clean cs) e in
    Keeps-trans (step-Keeps c t v p) (run_clean-Keeps cs v u q)

begin_drain-token :
    (t u : BackendSlot) (token : DrainToken)
    → begin_drain t ≡ returned token u
    → (u.mode ≡ draining) × (token.mode_epoch ≡ u.mode_epoch)
unfolding begin_drain
begin_drain-token t u token e = ground arith

wait_round-ok :
    (token : DrainToken) (now : ℕ) (w : BackendSlot) (s : BackendSnapshot)
    → wait_round token (snapshot now w.state) ≡ some (ok s)
    → (s ≡ snapshot now w.state)
      × (w.leases ≡ [])
      × (w.mode ≡ draining)
      × (w.mode_epoch ≡ token.mode_epoch)
unfolding wait_round snapshot
wait_round-ok token now w s e = ground arith

wait_round-err :
    (token : DrainToken) (now : ℕ) (w : BackendSlot) (x : DrainWaitError)
    → wait_round token (snapshot now w.state) ≡ some (err x)
    → (w.mode ≢ draining) ⊎ (w.mode_epoch ≢ token.mode_epoch)
unfolding wait_round snapshot
wait_round-err token now w x e = ground arith

-- A wait for a drain that returns, after any history without panics since the drain began, returns
-- a snapshot of a slot that is draining and holds no lease, and that granted none since.
pub wait_round-certifies :
    (cs : List Call) (now : ℕ) (t u w : BackendSlot) (token : DrainToken) (s : BackendSnapshot)
    → begin_drain t ≡ returned token u
    → run_clean cs u ≡ returned tt w
    → wait_round token (snapshot now w.state) ≡ some (ok s)
    → (s ≡ snapshot now w.state)
      × (w.leases ≡ [])
      × (w.mode ≡ draining)
      × (w.total_acquired ≡ u.total_acquired)
wait_round-certifies cs now t u w token s b r e =
    let k = run_clean-Keeps cs u w r in
    ground (arith, begin_drain-token t u token b, wait_round-ok token now w s e)

-- Such a wait is told that it was superseded only if the mode has changed since the drain began.
pub wait_round-superseded :
    (cs : List Call) (now : ℕ) (t u w : BackendSlot) (token : DrainToken) (x : DrainWaitError)
    → begin_drain t ≡ returned token u
    → run_clean cs u ≡ returned tt w
    → wait_round token (snapshot now w.state) ≡ some (err x)
    → u.mode_epoch < w.mode_epoch
wait_round-superseded cs now t u w token x b r e =
    let k = run_clean-Keeps cs u w r in
    ground (arith, begin_drain-token t u token b, wait_round-err token now w x e)

-- A drain ends: after any calls that release the leases which the slot holds, each once and in any
-- order, with attempts to acquire another anywhere between (`Ends`), no call has panicked, no attempt was
-- granted, and the wait returns the snapshot of the slot. No serial stands twice among the leases, and the
-- sequence has room for one change each.
pub begin_drain-completes :
    (now : ℕ) (t u : BackendSlot) (token : DrainToken) (cs : List Call)
    → begin_drain t ≡ returned token u
    → Ends u.leases cs
    → Distinct u.leases
    → length u.leases + u.sequence ≤ u64_max
    → (w : BackendSlot) × (run_clean cs u ≡ returned tt w)
      × (w.total_acquired ≡ u.total_acquired)
      × (wait_round token (snapshot now w.state) ≡ some (ok (snapshot now w.state)))
unfolding wait_round snapshot
begin_drain-completes now t u token cs b ends d h =
    let (w, r, l, m, p, g) =
      release_all u.leases cs u ends refl d (begin_drain-token t u token b).0 h in
    (w, r, g, ground (arith, begin_drain-token t u token b))
