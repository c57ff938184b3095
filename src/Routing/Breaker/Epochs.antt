-- ===== src/Routing/Breaker/Epochs.antt =====
-- Requests that share one backend's circuit (src/routing.rs): every order in which permits are taken,
-- resolved and dropped and bodies fail or end, as a step relation, within one topology generation.
use mistralrs_proxy.Prelude.{
  ℕ, ◌+◌, ◌<◌, ◌≡◌, refl, ◌≢◌, ◌⊎◌, inl, inr, Bool, true, false, none, some, List, [], ◌∷◌, ◌++◌,
  arith, All, subst, sym, ◌∙◌,
}
use mistralrs_proxy.Prelude.Monad.{returned}
use mistralrs_proxy.Routing.{Circuit, open_until, LiveBackend, new_live}
use mistralrs_proxy.Routing.Breaker.{
  CircuitOutcome, CircuitPermit, BodyFailureObserver, try_circuit_permit, circuit_open_for,
  record_body_failure, admit, resolve, success_with_body_observer,
}
use mistralrs_proxy.Routing.Breaker.Fits.{
  PermitFits, ObserverFits, Fits, All-remove, older, Fits-bump, Fits-remove_old, admit-Fits,
  Fits-plain, Fits-trial, plain_failures, Fits-observer, Fits-remove_observer, Fits-success,
  Fits-add_observer,
}

-- The permits not yet resolved and the observers not yet taken, with the backend's live state.
pub record System (F : Type 0) : Type 0 where
  pub live : LiveBackend F
  pub permits : List CircuitPermit
  pub observers : List BodyFailureObserver

module _ {F : Type 0} where
  pub data Step (s : System F) : System F → Type 0 where
    takes :
        (now : ℕ) (p : CircuitPermit) (live : LiveBackend F)
        → try_circuit_permit now s.live ≡ some (p, live)
        → Step s (record s { live = live; permits = p ∷ s.permits })
    -- a failed or a neutral request; a permit that is dropped is neutral
    resolves :
        (now : ℕ) (outcome : CircuitOutcome) (xs ys : List CircuitPermit) (p q : CircuitPermit)
        (live : LiveBackend F)
        → s.permits ≡ xs ++ (p ∷ ys)
        → resolve now outcome p s.live ≡ returned q live
        → Step s (record s { live = live; permits = xs ++ ys })
    succeeds :
        (xs ys : List CircuitPermit) (p q : CircuitPermit) (o : BodyFailureObserver)
        (live : LiveBackend F)
        → s.permits ≡ xs ++ (p ∷ ys)
        → success_with_body_observer p s.live ≡ returned (q, some o) live
        → Step s (record { live = live; permits = xs ++ ys; observers = o ∷ s.observers })
    succeeds_late :
        (xs ys : List CircuitPermit) (p q : CircuitPermit) (live : LiveBackend F)
        → s.permits ≡ xs ++ (p ∷ ys)
        → success_with_body_observer p s.live ≡ returned (q, none) live
        → Step s (record s { live = live; permits = xs ++ ys })
    body_fails :
        (now : ℕ) (xs ys : List BodyFailureObserver) (o : BodyFailureObserver)
        (live : LiveBackend F)
        → s.observers ≡ xs ++ (o ∷ ys)
        → record_body_failure now o.circuit_epoch o.open_immediately s.live ≡ returned tt live
        → Step s (record s { live = live; observers = xs ++ ys })
    body_ends :
        (xs ys : List BodyFailureObserver) (o : BodyFailureObserver)
        → s.observers ≡ xs ++ (o ∷ ys)
        → Step s (record s { observers = xs ++ ys })

  pub data Reach (s : System F) : System F → Type 0 where
    here : Reach s s
    next : {t u : System F} → Reach s t → Step t u → Reach s u

-- What a resolution of a permit of the current epoch makes of the circuit.
module _ {F : Type 0} (now : ℕ) (live after : LiveBackend F) where
  abbrev IsSame : Type 0
  IsSame =
      (after.circuit ≡ live.circuit)
      × (after.circuit_epoch ≡ live.circuit_epoch)
      × (after.consecutive_request_failures ≡ live.consecutive_request_failures)

  abbrev IsTripped : Type 0
  IsTripped =
      (after.circuit ≡ open_until (now + circuit_open_for))
      × (after.circuit_epoch ≡ live.circuit_epoch + 1)

  abbrev IsCounted : Type 0
  IsCounted =
      (after.circuit ≡ live.circuit)
      × (after.circuit_epoch ≡ live.circuit_epoch)
      × (after.consecutive_request_failures < 3)

  abbrev IsReleased : Type 0
  IsReleased =
      (after.circuit ≡ Circuit.half_open false) × (after.circuit_epoch ≡ live.circuit_epoch)

  resolve-cases :
      (outcome : CircuitOutcome) (p q : CircuitPermit)
      → p.resolved ≡ false
      → resolve now outcome p live ≡ returned q after
      → ((live.circuit_epoch ≢ p.circuit_epoch) × IsSame)
        ⊎ ((live.circuit_epoch ≡ p.circuit_epoch)
            × (IsTripped
                ⊎ ((p.trial ≡ false) × (IsSame ⊎ IsCounted))
                ⊎ ((p.trial ≡ true) × IsReleased)))
  unfolding resolve
  resolve-cases outcome p q r e = ground arith

module _ {F : Type 0} where
  abbrev Holds : LiveBackend F → List CircuitPermit → List BodyFailureObserver → Type 0
  Holds live ps os = Fits live.circuit live.circuit_epoch live.consecutive_request_failures ps os

  Holds-same :
      (live after : LiveBackend F) (ps : List CircuitPermit) (os : List BodyFailureObserver)
      → IsSame 0 live after
      → Holds live ps os
      → Holds after ps os
  Holds-same live after ps os s h = rw (s.0, s.1, s.2) h

  Holds-tripped :
      (now : ℕ) (live after : LiveBackend F) (ps : List CircuitPermit)
      (os : List BodyFailureObserver)
      → IsTripped now live after
      → All (PermitFits live.circuit live.circuit_epoch) ps
      → All (ObserverFits live.circuit live.circuit_epoch) os
      → Holds after ps os
  Holds-tripped now live after ps os t p o =
      rw (t.0, t.1) (Fits-bump live.circuit _ live.circuit_epoch _ ps os p o refl)

  resolve-Holds :
      (now : ℕ) (outcome : CircuitOutcome) (live after : LiveBackend F) (xs ys : List CircuitPermit)
      (os : List BodyFailureObserver) (p q : CircuitPermit)
      → resolve now outcome p live ≡ returned q after
      → Holds live (xs ++ (p ∷ ys)) os
      → Holds after (xs ++ ys) os
  resolve-Holds now outcome live after xs ys os p q r h =
      let k = All-remove (PermitFits live.circuit live.circuit_epoch) xs ys p h.permits_fit in
      elim (resolve-cases now live after outcome p q (older live.circuit live.circuit_epoch p k.0).0
        r) [
          | inl (old, s) ↦
              Holds-same live after (xs ++ ys) os s
                (Fits-remove_old live.circuit live.circuit_epoch _ xs ys os p (λ e. old (sym e)) h)
          | inr (i, inl t) ↦ Holds-tripped now live after (xs ++ ys) os t k.1 h.observers_fit
          | inr (i, inr (inl (t, inl s))) ↦
              let l = plain_failures live.circuit live.circuit_epoch _ xs ys os p (sym i) t h in
              Holds-same live after (xs ++ ys) os s
                (Fits-plain live.circuit live.circuit_epoch _ _ xs ys os p (sym i) t l h)
          | inr (i, inr (inl (t, inr s))) ↦
              rw (s.0, s.1)
                (Fits-plain live.circuit live.circuit_epoch _ _ xs ys os p (sym i) t s.2 h)
          | inr (i, inr (inr (t, s))) ↦
              rw (s.0, s.1) (Fits-trial live.circuit live.circuit_epoch _ _ xs ys os p (sym i) t h)
        ]

  success-cases :
      (live after : LiveBackend F) (p q : CircuitPermit) (o : BodyFailureObserver)
      → p.resolved ≡ false
      → success_with_body_observer p live ≡ returned (q, some o) after
      → (p.circuit_epoch ≡ live.circuit_epoch)
        × (after.circuit ≡ Circuit.closed)
        × (after.consecutive_request_failures ≡ 0)
        × (o.circuit_epoch ≡ after.circuit_epoch)
        × (((p.trial ≡ false) × (after.circuit_epoch ≡ live.circuit_epoch))
            ⊎ ((p.trial ≡ true) × (after.circuit_epoch ≡ live.circuit_epoch + 1)))
  unfolding success_with_body_observer
  success-cases live after p q o r e = ground arith

  success_late-cases :
      (live after : LiveBackend F) (p q : CircuitPermit)
      → p.resolved ≡ false
      → success_with_body_observer p live ≡ returned (q, none) after
      → (p.circuit_epoch ≢ live.circuit_epoch) × IsSame 0 live after
  unfolding success_with_body_observer
  success_late-cases live after p q r e = ground arith

  body_failure-cases :
      (now e : ℕ) (b : Bool) (live after : LiveBackend F)
      → record_body_failure now e b live ≡ returned tt after
      → ((live.circuit_epoch ≢ e) × IsSame now live after)
        ⊎ ((live.circuit_epoch ≡ e) × (IsTripped now live after ⊎ IsCounted now live after))
  unfolding record_body_failure
  body_failure-cases now e b live after h = ground arith

  succeeds-Holds :
      (live after : LiveBackend F) (xs ys : List CircuitPermit) (os : List BodyFailureObserver)
      (p q : CircuitPermit) (o : BodyFailureObserver)
      → success_with_body_observer p live ≡ returned (q, some o) after
      → Holds live (xs ++ (p ∷ ys)) os
      → Holds after (xs ++ ys) (o ∷ os)
  succeeds-Holds live after xs ys os p q o r h =
      let k = All-remove (PermitFits live.circuit live.circuit_epoch) xs ys p h.permits_fit in
      let (i, c, f, j, w) =
        success-cases live after p q o (older live.circuit live.circuit_epoch p k.0).0 r in
      elim w [
        | inl (t, e) ↦
            rw (c, f, e) (Fits-success live.circuit live.circuit_epoch _ xs ys os p o i t (j ∙ e) h)
        | inr (t, e) ↦
            rw (c, f, e)
              (Fits-add_observer _ 0 (xs ++ ys) os o (j ∙ e) (
                Fits-bump live.circuit Circuit.closed live.circuit_epoch 0 (xs ++ ys) os k.1
                  h.observers_fit (omega arith)))
      ]

  succeeds_late-Holds :
      (live after : LiveBackend F) (xs ys : List CircuitPermit) (os : List BodyFailureObserver)
      (p q : CircuitPermit)
      → success_with_body_observer p live ≡ returned (q, none) after
      → Holds live (xs ++ (p ∷ ys)) os
      → Holds after (xs ++ ys) os
  succeeds_late-Holds live after xs ys os p q r h =
      let k = All-remove (PermitFits live.circuit live.circuit_epoch) xs ys p h.permits_fit in
      let (i, s) =
        success_late-cases live after p q (older live.circuit live.circuit_epoch p k.0).0 r in
      Holds-same live after (xs ++ ys) os s
        (Fits-remove_old live.circuit live.circuit_epoch _ xs ys os p i h)

  body_fails-Holds :
      (now : ℕ) (live after : LiveBackend F) (ps : List CircuitPermit)
      (xs ys : List BodyFailureObserver) (o : BodyFailureObserver)
      → record_body_failure now o.circuit_epoch o.open_immediately live ≡ returned tt after
      → Holds live ps (xs ++ (o ∷ ys))
      → Holds after ps (xs ++ ys)
  body_fails-Holds now live after ps xs ys o r h =
      let k = All-remove (ObserverFits live.circuit live.circuit_epoch) xs ys o h.observers_fit in
      elim (body_failure-cases now o.circuit_epoch o.open_immediately live after r) [
        | inl (old, s) ↦
            Holds-same live after ps (xs ++ ys) s
              (Fits-remove_observer live.circuit live.circuit_epoch _ ps xs ys o h)
        | inr (i, inl t) ↦ Holds-tripped now live after ps (xs ++ ys) t h.permits_fit k.1
        | inr (i, inr s) ↦
            rw (s.0, s.1)
              (Fits-observer live.circuit live.circuit_epoch _ _ ps xs ys o (sym i) s.2 h)
      ]

  takes-cases :
      (now : ℕ) (live after : LiveBackend F) (p : CircuitPermit)
      → try_circuit_permit now live ≡ some (p, after)
      → (admit live.circuit now ≡ some (p.trial, after.circuit))
        × (after.circuit_epoch ≡ live.circuit_epoch)
        × (after.consecutive_request_failures ≡ live.consecutive_request_failures)
        × (record { circuit_epoch = live.circuit_epoch; trial = p.trial; resolved = false } ≡ p)
  unfolding try_circuit_permit
  takes-cases now live after p r = ground arith

  takes-Holds :
      (now : ℕ) (live after : LiveBackend F) (ps : List CircuitPermit)
      (os : List BodyFailureObserver) (p : CircuitPermit)
      → try_circuit_permit now live ≡ some (p, after)
      → Holds live ps os
      → Holds after (p ∷ ps) os
  takes-Holds now live after ps os p r h =
      let (a, e, f, q) = takes-cases now live after p r in
      rw (e, f)
        (subst
          (λ x. Fits after.circuit live.circuit_epoch live.consecutive_request_failures (x ∷ ps) os)
          q (admit-Fits live.circuit after.circuit now live.circuit_epoch _ p.trial ps os a h))

  Step-Holds :
      {s t : System F}
      → Step s t
      → Holds s.live s.permits s.observers
      → Holds t.live t.permits t.observers
  Step-Holds {s} (takes now p live e) h = takes-Holds now s.live live s.permits s.observers p e h
  Step-Holds {s} (resolves now outcome xs ys p q live l e) h =
      resolve-Holds now outcome s.live live xs ys s.observers p q e
        (subst (λ ps. Holds s.live ps s.observers) l h)
  Step-Holds {s} (succeeds xs ys p q o live l e) h =
      succeeds-Holds s.live live xs ys s.observers p q o e
        (subst (λ ps. Holds s.live ps s.observers) l h)
  Step-Holds {s} (succeeds_late xs ys p q live l e) h =
      succeeds_late-Holds s.live live xs ys s.observers p q e
        (subst (λ ps. Holds s.live ps s.observers) l h)
  Step-Holds {s} (body_fails now xs ys o live l e) h =
      body_fails-Holds now s.live live s.permits xs ys o e
        (subst (λ os. Holds s.live s.permits os) l h)
  Step-Holds {s} (body_ends xs ys o l) h =
      Fits-remove_observer s.live.circuit s.live.circuit_epoch _ s.permits xs ys o
        (subst (λ os. Holds s.live s.permits os) l h)

  Reach-Holds :
      {s t : System F}
      → Holds s.live s.permits s.observers
      → Reach s t
      → Holds t.live t.permits t.observers
  Reach-Holds h here = h
  Reach-Holds h (next r st) = Step-Holds st (Reach-Holds h r)

-- A backend that has just been added, with no request.
abbrev pub start : {F : Type 0} → ℕ → System F
start generation = record { live = new_live generation; permits = []; observers = [] }

-- However requests of one backend interleave, within one topology generation: while the circuit is
-- half open with its trial in flight, exactly one unresolved permit is of the current epoch and it
-- is the trial; otherwise while it is open or half open there is none; while it is closed no
-- unresolved trial is of the current epoch and fewer than three failures are counted; and only a
-- closed circuit has observers of the current epoch.
pub Reach-one_trial :
    {F : Type 0} (generation : ℕ) (s : System F)
    → Reach (start generation) s
    → Fits s.live.circuit s.live.circuit_epoch s.live.consecutive_request_failures s.permits
        s.observers
unfolding new_live
Reach-one_trial generation s r = Reach-Holds (ground arith) r
