-- ===== src/Backend/Leases.antt =====
-- The lease table of a slot (src/backend.rs): `BTreeMap<LeaseKey, ()>`, as the list of its keys in
-- their derived order, by `started_at` and then by `serial`. Instants are numbers.
use mistralrs_proxy.Prelude.{
  ℕ, suc, ◌≤◌, ◌<◌, ◌≡◌, refl, ◌≢◌, inl, inr, Bool, true, false, ◌&&◌, ◌||◌, List, [], ◌∷◌, arith,
  ltb, ◌==◌, if◌then◌else◌, length, Bool-cases, subst,
}

pub record LeaseKey : Type 0 where
  pub started_at : ℕ
  pub serial : ℕ

abbrev pub key_eq : LeaseKey → LeaseKey → Bool
key_eq a b = a.started_at == b.started_at && a.serial == b.serial

abbrev pub key_lt : LeaseKey → LeaseKey → Bool
key_lt a b =
    ltb a.started_at b.started_at || (a.started_at == b.started_at && ltb a.serial b.serial)

-- `BTreeMap::insert`.
unfoldable pub insert : LeaseKey → List LeaseKey → List LeaseKey
insert k [] = k ∷ []
insert k (j ∷ ks) =
    if key_eq k j then j ∷ ks else if key_lt k j then k ∷ j ∷ ks else j ∷ insert k ks

-- `BTreeMap::remove(k)` returns `Some` exactly if `has k`, and leaves `remove k`.
unfoldable pub has : LeaseKey → List LeaseKey → Bool
has k [] = false
has k (j ∷ ks) = key_eq k j || has k ks

unfoldable pub remove : LeaseKey → List LeaseKey → List LeaseKey
remove k [] = []
remove k (j ∷ ks) = if key_eq k j then ks else j ∷ remove k ks

-- Every serial is below `n`: the table was filled by a counter that has come to `n`.
abbrev pub Below : ℕ → List LeaseKey → Type 0
Below n [] = Unit {0}
Below n (k ∷ ks) = (k.serial < n) × Below n ks

-- No entry has the serial `n`.
abbrev pub Fresh : ℕ → List LeaseKey → Type 0
Fresh n [] = Unit {0}
Fresh n (k ∷ ks) = (k.serial ≢ n) × Fresh n ks

-- No serial stands twice.
abbrev pub Distinct : List LeaseKey → Type 0
Distinct [] = Unit {0}
Distinct (k ∷ ks) = Fresh k.serial ks × Distinct ks

pub Below-mono : {m n : ℕ} (ks : List LeaseKey) → m ≤ n → Below m ks → Below n ks
Below-mono [] h b = tt
Below-mono (k ∷ ks) h b = (omega arith, Below-mono ks h b.1)

pub Below-Fresh : (n : ℕ) (ks : List LeaseKey) → Below n ks → Fresh n ks
Below-Fresh n [] b = tt
Below-Fresh n (k ∷ ks) b = ((λ e. omega arith), Below-Fresh n ks b.1)

pub insert-Below :
    (k : LeaseKey) (n : ℕ) (ks : List LeaseKey) → k.serial < n → Below n ks → Below n (insert k ks)
unfolding insert
insert-Below k n [] h b = (h, tt)
insert-Below k n (j ∷ ks) h b = ground (arith, insert-Below k n ks h b.1)

insert-Fresh :
    (k : LeaseKey) (n : ℕ) (ks : List LeaseKey) → k.serial ≢ n → Fresh n ks → Fresh n (insert k ks)
unfolding insert
insert-Fresh k n [] h b = (h, tt)
insert-Fresh k n (j ∷ ks) h b = ground (arith, insert-Fresh k n ks h b.1)

pub insert-Distinct :
    (k : LeaseKey) (ks : List LeaseKey) → Fresh k.serial ks → Distinct ks → Distinct (insert k ks)
unfolding insert
insert-Distinct k [] f d = (f, d)
insert-Distinct k (j ∷ ks) f d =
    ground (
      arith,
      insert-Distinct k ks f.1 d.1,
      insert-Fresh k j.serial ks (λ e. f.0 (ground arith)) d.0,
    )

pub length-insert :
    (k : LeaseKey) (ks : List LeaseKey) → Fresh k.serial ks → length (insert k ks) ≡ suc (length ks)
unfolding insert
length-insert k [] f = refl
length-insert k (j ∷ ks) f = ground (arith, length-insert k ks f.1)

-- Inserting a fresh key and removing it gives the table back.
pub remove-insert :
    (k : LeaseKey) (ks : List LeaseKey) → Fresh k.serial ks → remove k (insert k ks) ≡ ks
unfolding insert remove
remove-insert k [] f = ground arith
remove-insert k (j ∷ ks) f = ground (arith, remove-insert k ks f.1)

pub has-insert : (k : LeaseKey) (ks : List LeaseKey) → has k (insert k ks) ≡ true
unfolding insert has
has-insert k [] = ground arith
has-insert k (j ∷ ks) = ground (arith, has-insert k ks)

pub remove-Below : (k : LeaseKey) (n : ℕ) (ks : List LeaseKey) → Below n ks → Below n (remove k ks)
unfolding remove
remove-Below k n [] b = tt
remove-Below k n (j ∷ ks) b = ground (arith, remove-Below k n ks b.1)

remove-Fresh : (k : LeaseKey) (n : ℕ) (ks : List LeaseKey) → Fresh n ks → Fresh n (remove k ks)
unfolding remove
remove-Fresh k n [] f = tt
remove-Fresh k n (j ∷ ks) f = ground (arith, remove-Fresh k n ks f.1)

pub remove-Distinct : (k : LeaseKey) (ks : List LeaseKey) → Distinct ks → Distinct (remove k ks)
unfolding remove
remove-Distinct k [] d = tt
remove-Distinct k (j ∷ ks) d =
    ground (arith, remove-Distinct k ks d.1, remove-Fresh k j.serial ks d.0)

pub length-remove :
    (k : LeaseKey) (ks : List LeaseKey) → has k ks ≡ true → suc (length (remove k ks)) ≡ length ks
unfolding has remove
length-remove k [] h = cc
length-remove k (j ∷ ks) h = ground (arith, length-remove k ks)

pub length-remove-le : (k : LeaseKey) (ks : List LeaseKey) → length (remove k ks) ≤ length ks
unfolding remove
length-remove-le k [] = omega arith
length-remove-le k (j ∷ ks) = ground (arith, length-remove-le k ks)

pub not-has_of_Fresh : (k : LeaseKey) (ks : List LeaseKey) → Fresh k.serial ks → has k ks ≡ false
unfolding has
not-has_of_Fresh k [] f = refl
not-has_of_Fresh k (j ∷ ks) f = ground (arith, not-has_of_Fresh k ks f.1)

-- A key can be removed once.
pub has-remove : (k : LeaseKey) (ks : List LeaseKey) → Distinct ks → has k (remove k ks) ≡ false
unfolding has remove
has-remove k [] d = refl
has-remove k (j ∷ ks) d = elim (Bool-cases (key_eq k j)) [
  | inl hit ↦ rw hit (not-has_of_Fresh k ks (subst (λ n. Fresh n ks) (ground arith) d.0))
  | inr miss ↦ rw miss (rw miss (has-remove k ks d.1))
]

pub has_of_remove :
    (j k : LeaseKey) (ks : List LeaseKey) → has j (remove k ks) ≡ true → has j ks ≡ true
unfolding has remove
has_of_remove j k [] h = cc
has_of_remove j k (i ∷ ks) h = ground (arith, has_of_remove j k ks)
