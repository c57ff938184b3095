-- ===== src/Routing/Breaker/Fits.antt =====
-- Which permits and observers may be about, given the circuit and its epoch (src/routing.rs).
use mistralrs_proxy.Prelude.{
  ℕ, suc, ◌+◌, ◌≤◌, ◌<◌, ◌≡◌, refl, ◌≢◌, Bool, true, false, some, List, [], ◌∷◌, ◌++◌, arith, ◌==◌,
  if◌then◌else◌, All, subst,
}
use mistralrs_proxy.Routing.{Circuit, open_until}
use mistralrs_proxy.Routing.Breaker.{CircuitPermit, BodyFailureObserver, admit}

-- The permits of an epoch.
abbrev pub of_epoch : ℕ → List CircuitPermit → ℕ
of_epoch e [] = 0
of_epoch e (p ∷ ps) = if p.circuit_epoch == e then suc (of_epoch e ps) else of_epoch e ps

-- Which permits and observers may be about, by the circuit and its epoch.
abbrev pub PermitFits : Circuit → ℕ → CircuitPermit → Type 0
PermitFits Circuit.closed e p =
    (p.resolved ≡ false) × (p.circuit_epoch ≤ e) × (p.circuit_epoch ≡ e → p.trial ≡ false)
PermitFits (open_until d) e p = (p.resolved ≡ false) × (p.circuit_epoch < e)
PermitFits (Circuit.half_open b) e p =
    (p.resolved ≡ false) × (p.circuit_epoch ≤ e) × (p.circuit_epoch ≡ e → p.trial ≡ true)

abbrev pub ObserverFits : Circuit → ℕ → BodyFailureObserver → Type 0
ObserverFits Circuit.closed e o = o.circuit_epoch ≤ e
ObserverFits (open_until d) e o = o.circuit_epoch < e
ObserverFits (Circuit.half_open b) e o = o.circuit_epoch < e

-- The trials in flight, as the circuit counts them, and its count of failures.
abbrev pub TrialsAre : Circuit → ℕ → ℕ → Type 0
TrialsAre Circuit.closed n failures = failures < 3
TrialsAre (open_until d) n failures = n ≡ 0
TrialsAre (Circuit.half_open true) n failures = n ≡ 1
TrialsAre (Circuit.half_open false) n failures = n ≡ 0

pub record Fits (c : Circuit) (e f : ℕ) (ps : List CircuitPermit) (os : List BodyFailureObserver)
    : Type 0 where
  pub permits_fit : All (PermitFits c e) ps
  pub observers_fit : All (ObserverFits c e) os
  pub trials : TrialsAre c (of_epoch e ps) f

pub All-remove {ℓ κ} :
    {A : Type ℓ} (P : A → Type κ) (xs ys : List A) (a : A)
    → All P (xs ++ (a ∷ ys))
    → P a × All P (xs ++ ys)
All-remove P [] ys a h = h
All-remove P (x ∷ xs) ys a h = let (p, q) = All-remove P xs ys a h.1 in (p, (h.0, q))

of_epoch-remove :
    (e : ℕ) (xs ys : List CircuitPermit) (p : CircuitPermit)
    → of_epoch e (xs ++ (p ∷ ys))
      ≡ (if p.circuit_epoch == e then suc (of_epoch e (xs ++ ys)) else of_epoch e (xs ++ ys))
of_epoch-remove e [] ys p = refl
of_epoch-remove e (x ∷ xs) ys p = ground (arith, of_epoch-remove e xs ys p)

-- What fits one circuit fits any circuit of the next epoch, and has no permit of it.
pub older :
    (c : Circuit) (e : ℕ) (p : CircuitPermit)
    → PermitFits c e p
    → (p.resolved ≡ false) × (p.circuit_epoch ≤ e)
older Circuit.closed e p h = ground arith
older (open_until d) e p h = ground arith
older (Circuit.half_open b) e p h = ground arith

PermitFits-next :
    (c d : Circuit) (e : ℕ) (p : CircuitPermit) → PermitFits c e p → PermitFits d (e + 1) p
PermitFits-next c Circuit.closed e p h = ground (arith, older c e p h)
PermitFits-next c (open_until t) e p h = ground (arith, older c e p h)
PermitFits-next c (Circuit.half_open b) e p h = ground (arith, older c e p h)

ObserverFits-next :
    (c d : Circuit) (e : ℕ) (o : BodyFailureObserver)
    → ObserverFits c e o
    → ObserverFits d (e + 1) o
ObserverFits-next Circuit.closed Circuit.closed e o h = omega arith
ObserverFits-next Circuit.closed (open_until t) e o h = omega arith
ObserverFits-next Circuit.closed (Circuit.half_open b) e o h = omega arith
ObserverFits-next (open_until u) Circuit.closed e o h = omega arith
ObserverFits-next (open_until u) (open_until t) e o h = omega arith
ObserverFits-next (open_until u) (Circuit.half_open b) e o h = omega arith
ObserverFits-next (Circuit.half_open a) Circuit.closed e o h = omega arith
ObserverFits-next (Circuit.half_open a) (open_until t) e o h = omega arith
ObserverFits-next (Circuit.half_open a) (Circuit.half_open b) e o h = omega arith

All-map {ℓ κ ν} :
    {A : Type ℓ} (P : A → Type κ) (Q : A → Type ν) (xs : List A)
    → ((a : A) → P a → Q a)
    → All P xs
    → All Q xs
All-map P Q [] k h = tt
All-map P Q (x ∷ xs) k h = (k x h.0, All-map P Q xs k h.1)

none_of_next :
    (c : Circuit) (e : ℕ) (ps : List CircuitPermit)
    → All (PermitFits c e) ps
    → of_epoch (e + 1) ps ≡ 0
none_of_next c e [] h = refl
none_of_next c e (p ∷ ps) h = ground (arith, older c e p h.0, none_of_next c e ps h.1)

-- A bumped epoch: whatever was about is of an older one.
pub Fits-bump :
    (c d : Circuit) (e f : ℕ) (ps : List CircuitPermit) (os : List BodyFailureObserver)
    → All (PermitFits c e) ps
    → All (ObserverFits c e) os
    → TrialsAre d 0 f
    → Fits d (e + 1) f ps os
Fits-bump c d e f ps os p o t = record {
  permits_fit = All-map (PermitFits c e) (PermitFits d (e + 1)) ps (PermitFits-next c d e) p;
  observers_fit =
      All-map (ObserverFits c e) (ObserverFits d (e + 1)) os (ObserverFits-next c d e) o;
  trials = rw (none_of_next c e ps p) t;
}

-- A permit of an older epoch goes.
pub Fits-remove_old :
    (c : Circuit) (e f : ℕ) (xs ys : List CircuitPermit) (os : List BodyFailureObserver)
    (p : CircuitPermit)
    → p.circuit_epoch ≢ e
    → Fits c e f (xs ++ (p ∷ ys)) os
    → Fits c e f (xs ++ ys) os
Fits-remove_old c e f xs ys os p n h = record {
  permits_fit = (All-remove (PermitFits c e) xs ys p h.permits_fit).1;
  observers_fit = h.observers_fit;
  trials = subst (λ n. TrialsAre c n f) (ground (arith, of_epoch-remove e xs ys p)) h.trials;
}

pub admit-Fits :
    (c d : Circuit) (now e f : ℕ) (t : Bool) (ps : List CircuitPermit)
    (os : List BodyFailureObserver)
    → admit c now ≡ some (t, d)
    → Fits c e f ps os
    → Fits d e f (record { circuit_epoch = e; trial = t; resolved = false } ∷ ps) os
unfolding admit
admit-Fits Circuit.closed d now e f t ps os a h =
    let x : (t ≡ false) × (d ≡ Circuit.closed) = ground arith in
    rw (x.0, x.1)
      (record {
        permits_fit = ((refl, omega arith, λ _. refl), h.permits_fit);
        observers_fit = h.observers_fit;
        trials = h.trials;
      })
admit-Fits (open_until u) d now e f t ps os a h =
    let x : (t ≡ true) × (d ≡ Circuit.half_open true) = ground arith in
    rw (x.0, x.1)
      (record {
        permits_fit = (
          (refl, omega arith, λ _. refl),
          All-map (PermitFits (open_until u) e) (PermitFits (Circuit.half_open true) e) ps
              (λ p k. (k.0, omega arith, λ i. absurd (omega arith))) h.permits_fit,
        );
        observers_fit = h.observers_fit;
        trials = ground arith;
      })
admit-Fits (Circuit.half_open true) d now e f t ps os a h = cc
admit-Fits (Circuit.half_open false) d now e f t ps os a h =
    let x : (t ≡ true) × (d ≡ Circuit.half_open true) = ground arith in
    rw (x.0, x.1)
      (record {
        permits_fit = ((refl, omega arith, λ _. refl), h.permits_fit);
        observers_fit = h.observers_fit;
        trials = ground arith;
      })

-- A plain permit of the current epoch is about only while the circuit is closed.
pub Fits-plain :
    (c : Circuit) (e f g : ℕ) (xs ys : List CircuitPermit) (os : List BodyFailureObserver)
    (p : CircuitPermit)
    → p.circuit_epoch ≡ e
    → p.trial ≡ false
    → g < 3
    → Fits c e f (xs ++ (p ∷ ys)) os
    → Fits c e g (xs ++ ys) os
Fits-plain Circuit.closed e f g xs ys os p i t l h = record {
  permits_fit = (All-remove (PermitFits Circuit.closed e) xs ys p h.permits_fit).1;
  observers_fit = h.observers_fit;
  trials = l;
}
Fits-plain (open_until u) e f g xs ys os p i t l h =
    absurd (omega (arith, (All-remove (PermitFits (open_until u) e) xs ys p h.permits_fit).0))
Fits-plain (Circuit.half_open b) e f g xs ys os p i t l h =
    let k = (All-remove (PermitFits (Circuit.half_open b) e) xs ys p h.permits_fit).0 in
    absurd (cc (k.2 i))

-- A trial of the current epoch is the one that the circuit has in flight.
pub Fits-trial :
    (c : Circuit) (e f g : ℕ) (xs ys : List CircuitPermit) (os : List BodyFailureObserver)
    (p : CircuitPermit)
    → p.circuit_epoch ≡ e
    → p.trial ≡ true
    → Fits c e f (xs ++ (p ∷ ys)) os
    → Fits (Circuit.half_open false) e g (xs ++ ys) os
Fits-trial Circuit.closed e f g xs ys os p i t h =
    let k = (All-remove (PermitFits Circuit.closed e) xs ys p h.permits_fit).0 in
    absurd (cc (k.2 i))
Fits-trial (open_until u) e f g xs ys os p i t h =
    absurd (omega (arith, (All-remove (PermitFits (open_until u) e) xs ys p h.permits_fit).0))
Fits-trial (Circuit.half_open false) e f g xs ys os p i t h =
    absurd (ground (arith, of_epoch-remove e xs ys p))
Fits-trial (Circuit.half_open true) e f g xs ys os p i t h = record {
  permits_fit = (All-remove (PermitFits (Circuit.half_open true) e) xs ys p h.permits_fit).1;
  observers_fit = h.observers_fit;
  trials = ground (arith, of_epoch-remove e xs ys p);
}

-- So the circuit is closed when a plain permit of its epoch is about.
pub plain_failures :
    (c : Circuit) (e f : ℕ) (xs ys : List CircuitPermit) (os : List BodyFailureObserver)
    (p : CircuitPermit)
    → p.circuit_epoch ≡ e
    → p.trial ≡ false
    → Fits c e f (xs ++ (p ∷ ys)) os
    → f < 3
plain_failures Circuit.closed e f xs ys os p i t h = h.trials
plain_failures (open_until u) e f xs ys os p i t h =
    absurd (omega (arith, (All-remove (PermitFits (open_until u) e) xs ys p h.permits_fit).0))
plain_failures (Circuit.half_open b) e f xs ys os p i t h =
    let k = (All-remove (PermitFits (Circuit.half_open b) e) xs ys p h.permits_fit).0 in
    absurd (cc (k.2 i))

-- An observer of the current epoch is about only while the circuit is closed.
pub Fits-observer :
    (c : Circuit) (e f g : ℕ) (ps : List CircuitPermit) (xs ys : List BodyFailureObserver)
    (o : BodyFailureObserver)
    → o.circuit_epoch ≡ e
    → g < 3
    → Fits c e f ps (xs ++ (o ∷ ys))
    → Fits c e g ps (xs ++ ys)
Fits-observer Circuit.closed e f g ps xs ys o i l h = record {
  permits_fit = h.permits_fit;
  observers_fit = (All-remove (ObserverFits Circuit.closed e) xs ys o h.observers_fit).1;
  trials = l;
}
Fits-observer (open_until u) e f g ps xs ys o i l h =
    absurd (omega (arith, (All-remove (ObserverFits (open_until u) e) xs ys o h.observers_fit).0))
Fits-observer (Circuit.half_open b) e f g ps xs ys o i l h =
    absurd
      (omega (arith, (All-remove (ObserverFits (Circuit.half_open b) e) xs ys o h.observers_fit).0))

-- An observer that goes changes nothing else.
pub Fits-remove_observer :
    (c : Circuit) (e f : ℕ) (ps : List CircuitPermit) (xs ys : List BodyFailureObserver)
    (o : BodyFailureObserver)
    → Fits c e f ps (xs ++ (o ∷ ys))
    → Fits c e f ps (xs ++ ys)
Fits-remove_observer c e f ps xs ys o h = record {
  permits_fit = h.permits_fit;
  observers_fit = (All-remove (ObserverFits c e) xs ys o h.observers_fit).1;
  trials = h.trials;
}

-- A success closes the circuit, in the same epoch if its permit was a plain one.
pub Fits-success :
    (c : Circuit) (e f : ℕ) (xs ys : List CircuitPermit) (os : List BodyFailureObserver)
    (p : CircuitPermit) (o : BodyFailureObserver)
    → p.circuit_epoch ≡ e
    → p.trial ≡ false
    → o.circuit_epoch ≡ e
    → Fits c e f (xs ++ (p ∷ ys)) os
    → Fits Circuit.closed e 0 (xs ++ ys) (o ∷ os)
Fits-success Circuit.closed e f xs ys os p o i t j h = record {
  permits_fit = (All-remove (PermitFits Circuit.closed e) xs ys p h.permits_fit).1;
  observers_fit = (omega arith, h.observers_fit);
  trials = omega arith;
}
Fits-success (open_until u) e f xs ys os p o i t j h =
    absurd (omega (arith, (All-remove (PermitFits (open_until u) e) xs ys p h.permits_fit).0))
Fits-success (Circuit.half_open b) e f xs ys os p o i t j h =
    let k = (All-remove (PermitFits (Circuit.half_open b) e) xs ys p h.permits_fit).0 in
    absurd (cc (k.2 i))

pub Fits-add_observer :
    (e f : ℕ) (ps : List CircuitPermit) (os : List BodyFailureObserver) (o : BodyFailureObserver)
    → o.circuit_epoch ≡ e
    → Fits Circuit.closed e f ps os
    → Fits Circuit.closed e f ps (o ∷ os)
Fits-add_observer e f ps os o i h = record {
  permits_fit = h.permits_fit;
  observers_fit = (omega arith, h.observers_fit);
  trials = h.trials;
}
