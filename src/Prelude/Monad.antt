-- ===== src/Prelude/Monad.antt =====
-- A method behind `&mut self` or a mutex guard: it returns a value and the new state, or it panics
-- and leaves the state as it then is. The mutexes of the program are read on after a panic
-- (`poisoned.into_inner()`), so that state stays in use.
use mathlib.Core.Path.{◌≡◌, refl}
use mathlib.Core.Logic.{◌⊎◌, inl, inr}

pub data Outcome {ℓ κ} (S : Type ℓ) (A : Type κ) : Type (ℓ ⊔ κ) where
  returned : A → S → Outcome S A
  panicked : S → Outcome S A

abbrev pub Method {ℓ κ} : Type ℓ → Type κ → Type (ℓ ⊔ κ)
Method S A = S → Outcome S A

module _ {ℓ κ ν} {S : Type ℓ} {A : Type κ} {B : Type ν} where
  abbrev pub bind_outcome : Outcome S A → (A → S → Outcome S B) → Outcome S B
  bind_outcome (returned a s) f = f a s
  bind_outcome (panicked s) f = panicked s

infixl 5 ◌>>=◌ ◌>>◌
abbrev pub ◌>>=◌ {ℓ κ ν} :
    {S : Type ℓ} {A : Type κ} {B : Type ν} → Method S A → (A → Method S B) → Method S B
◌>>=◌ m f s = bind_outcome (m s) f

abbrev pub ◌>>◌ {ℓ κ ν} :
    {S : Type ℓ} {A : Type κ} {B : Type ν} → Method S A → Method S B → Method S B
◌>>◌ m k s = bind_outcome (m s) (λ _. k)

abbrev pub pure {ℓ κ} : {S : Type ℓ} {A : Type κ} → A → Method S A
pure a s = returned a s

-- The state after a call, whether it returned or panicked.
abbrev pub state_after {ℓ κ} : {S : Type ℓ} {A : Type κ} → Outcome S A → S
state_after (returned a s) = s
state_after (panicked s) = s

-- Inversion of a bind that returned.
pub bind_outcome-returned {ℓ κ ν} :
    {S : Type ℓ} {A : Type κ} {B : Type ν} (o : Outcome S A) (f : A → S → Outcome S B) {b : B}
    {u : S}
    → bind_outcome o f ≡ returned b u
    → (a : A) × (v : S) × (o ≡ returned a v) × (f a v ≡ returned b u)
bind_outcome-returned (returned a s) f e = (a, s, refl, e)
bind_outcome-returned (panicked s) f e = cc

pub bind_outcome_cong {ℓ κ ν} :
    {S : Type ℓ} {A : Type κ} {B : Type ν} (o : Outcome S A) {f g : A → S → Outcome S B}
    → ((a : A) (s : S) → f a s ≡ g a s)
    → bind_outcome o f ≡ bind_outcome o g
bind_outcome_cong (returned a s) h = h a s
bind_outcome_cong (panicked s) h = refl

pub bind_outcome_assoc {ℓ κ ν μ} :
    {S : Type ℓ} {A : Type κ} {B : Type ν} {C : Type μ} (o : Outcome S A) (f : A → S → Outcome S B)
    (g : B → S → Outcome S C)
    → bind_outcome (bind_outcome o f) g ≡ bind_outcome o (λ a s. bind_outcome (f a s) g)
bind_outcome_assoc (returned a s) f g = refl
bind_outcome_assoc (panicked s) f g = refl

pub Outcome-cases {ℓ κ} :
    {S : Type ℓ} {A : Type κ} (o : Outcome S A)
    → ((a : A) × (s : S) × (o ≡ returned a s)) ⊎ ((s : S) × (o ≡ panicked s))
Outcome-cases (returned a s) = inl (a, s, refl)
Outcome-cases (panicked s) = inr (s, refl)
