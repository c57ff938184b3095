-- ===== src/Routing/Select/Order.antt =====
-- The order in which `select` tries its candidates (src/routing.rs): which comes first.
use mistralrs_proxy.Prelude.{
  ℕ, ◌≤◌, ◌≡◌, ◌≢◌, refl, sym, subst, ◌⊎◌, inl, inr, true, false, some, List, [], ◌∷◌, arith, All,
  Option-cases,
}
use mistralrs_proxy.Routing.Pressure.{
  Ordering, less, equal, greater, FloatOps, LeastPressureV1Score,
}
use mistralrs_proxy.Routing.Select.{
  Candidate, any_scored, retain_scored, pressure_cmp, inflight_cmp, scored_cmp, insert_by, sort_by,
  order_candidates,
}

Ordering-cases : (o : Ordering) → (o ≡ greater) ⊎ (o ≢ greater)
Ordering-cases less = inr (λ e. ground arith)
Ordering-cases equal = inr (λ e. ground arith)
Ordering-cases greater = inl refl

-- A comparison decides a preorder on the elements that satisfy `P`.
record Decides {F : Type 0} (cmp : Candidate F → Candidate F → Ordering) (P : Candidate F → Type 0)
    (R : Candidate F → Candidate F → Type 0) : Type 0 where
  below : (x y : Candidate F) → P x → P y → cmp x y ≢ greater → R x y
  above : (x y : Candidate F) → P x → P y → cmp x y ≡ greater → R y x
  reflexive : (x : Candidate F) → P x → R x x
  transitive : (x y z : Candidate F) → P x → P y → P z → R x y → R y z → R x z

-- The first element is least by `R`.
abbrev FirstLeast :
    {F : Type 0} → (Candidate F → Candidate F → Type 0) → List (Candidate F) → Type 0
FirstLeast R [] = Unit
FirstLeast R (x ∷ xs) = All (R x) (x ∷ xs)

module _ {F : Type 0} (ops : FloatOps F) (cmp : Candidate F → Candidate F → Ordering) where
  insert_by-before :
      (x y : Candidate F) (ys : List (Candidate F))
      → cmp x y ≢ greater
      → insert_by ops cmp x (y ∷ ys) ≡ x ∷ y ∷ ys
  unfolding insert_by
  insert_by-before x y ys n = elim (Ordering-cases (cmp x y)) [
    | inl after ↦ absurd (n after)
    | inr before ↦ ground arith
  ]

  insert_by-after :
      (x y : Candidate F) (ys : List (Candidate F))
      → cmp x y ≡ greater
      → insert_by ops cmp x (y ∷ ys) ≡ y ∷ insert_by ops cmp x ys
  unfolding insert_by
  insert_by-after x y ys e = ground arith

  pub insert_by-All :
      (Q : Candidate F → Type 0) (x : Candidate F) (ys : List (Candidate F))
      → Q x
      → All Q ys
      → All Q (insert_by ops cmp x ys)
  unfolding insert_by
  insert_by-All Q x [] q a = (q, tt)
  insert_by-All Q x (y ∷ ys) q (b, a) =
      elim (cmp x y)
        as (λ o. All Q (elim o [
          | less ↦ x ∷ y ∷ ys
          | equal ↦ x ∷ y ∷ ys
          | greater ↦ y ∷ insert_by ops cmp x ys
        ])) [ less ↦ (q, (b, a)) | equal ↦ (q, (b, a)) | greater ↦ (b, insert_by-All Q x ys q a) ]

  transitive-All :
      {P : Candidate F → Type 0} {R : Candidate F → Candidate F → Type 0} (laws : Decides cmp P R)
      (x y : Candidate F) (zs : List (Candidate F))
      → P x
      → P y
      → All P zs
      → R x y
      → All (R y) zs
      → All (R x) zs
  transitive-All laws x y [] p q a r b = tt
  transitive-All laws x y (z ∷ zs) p q (s, a) r (t, b) =
      (laws.transitive x y z p q s r t, transitive-All laws x y zs p q a r b)

  insert_by-FirstLeast :
      {P : Candidate F → Type 0} {R : Candidate F → Candidate F → Type 0} (laws : Decides cmp P R)
      (x : Candidate F) (ys : List (Candidate F))
      → P x
      → All P ys
      → FirstLeast R ys
      → FirstLeast R (insert_by ops cmp x ys)
  unfolding insert_by
  insert_by-FirstLeast {R} laws x [] p a f = (laws.reflexive x p, tt)
  insert_by-FirstLeast {R} laws x (y ∷ ys) p (q, a) (r, f) = elim (Ordering-cases (cmp x y)) [
    | inl after ↦
        subst (FirstLeast R) (sym (insert_by-after x y ys after))
          (r, insert_by-All _ x ys (laws.above x y p q after) f)
    | inr before ↦
        let b = laws.below x y p q before in
        subst (FirstLeast R) (sym (insert_by-before x y ys before))
          (laws.reflexive x p, (b, transitive-All laws x y ys p q a b f))
  ]

  pub sort_by-All :
      (Q : Candidate F → Type 0) (xs : List (Candidate F)) → All Q xs → All Q (sort_by ops cmp xs)
  unfolding sort_by
  sort_by-All Q [] a = tt
  sort_by-All Q (x ∷ xs) (q, a) = insert_by-All Q x (sort_by ops cmp xs) q (sort_by-All Q xs a)

  sort_by-FirstLeast :
      {P : Candidate F → Type 0} {R : Candidate F → Candidate F → Type 0} (laws : Decides cmp P R)
      (xs : List (Candidate F))
      → All P xs
      → FirstLeast R (sort_by ops cmp xs)
  unfolding sort_by
  sort_by-FirstLeast laws [] a = tt
  sort_by-FirstLeast laws (x ∷ xs) (p, a) =
      insert_by-FirstLeast laws x (sort_by ops cmp xs) p (sort_by-All _ xs a)
        (sort_by-FirstLeast laws xs a)

  insert_by-from :
      (Q : Candidate F → Type 0) (x : Candidate F) (ys : List (Candidate F))
      → All Q (insert_by ops cmp x ys)
      → Q x × All Q ys
  unfolding insert_by
  insert_by-from Q x [] a = a
  insert_by-from Q x (y ∷ ys) a = elim (Ordering-cases (cmp x y)) [
    | inl after ↦
        let (r, b) = subst (All Q) (insert_by-after x y ys after) a in
        let (q, c) = insert_by-from Q x ys b in (q, (r, c))
    | inr before ↦ subst (All Q) (insert_by-before x y ys before) a
  ]

  sort_by-from :
      (Q : Candidate F → Type 0) (xs : List (Candidate F)) → All Q (sort_by ops cmp xs) → All Q xs
  unfolding sort_by
  sort_by-from Q [] a = tt
  sort_by-from Q (x ∷ xs) a =
      let (q, b) = insert_by-from Q x (sort_by ops cmp xs) a in (q, sort_by-from Q xs b)

  -- The head of a sorted list is least among those that were sorted.
  sort_by-least :
      {P : Candidate F → Type 0} {R : Candidate F → Candidate F → Type 0} (laws : Decides cmp P R)
      (xs rest : List (Candidate F)) (c : Candidate F)
      → All P xs
      → sort_by ops cmp xs ≡ c ∷ rest
      → All (R c) xs
  sort_by-least {R} laws xs rest c a e =
      sort_by-from (R c) xs
        (subst (All (R c)) (sym e) (subst (FirstLeast R) e (sort_by-FirstLeast laws xs a)))

-- `Ordering::reverse`.
abbrev pub reverse : Ordering → Ordering
reverse less = greater
reverse equal = equal
reverse greater = less

-- What the standard library says of `f64::total_cmp`: a total order.
pub record IsTotalOrder {F : Type 0} (ops : FloatOps F) : Type 0 where
  pub flips : (a b : F) → ops.total_cmp b a ≡ reverse (ops.total_cmp a b)
  pub transitive :
      (a b c : F)
      → ops.total_cmp a b ≢ greater
      → ops.total_cmp b c ≢ greater
      → ops.total_cmp a c ≢ greater

module _ {F : Type 0} (ops : FloatOps F) where
  abbrev Scored : Candidate F → Type 0
  Scored c = (s : LeastPressureV1Score F) × (c.score ≡ some s)

  abbrev LessPressed : Candidate F → Candidate F → Type 0
  LessPressed c d = pressure_cmp ops c d ≢ greater

  -- The pressure of `c` is there, and not above that of `d`, if `d` has one.
  abbrev pub NotAbove : Candidate F → Candidate F → Type 0
  NotAbove c d =
      (t : LeastPressureV1Score F)
      → d.score ≡ some t
      → (s : LeastPressureV1Score F) × (c.score ≡ some s)
        × (ops.total_cmp s.pressure t.pressure ≢ greater)

  scored_cmp-Decides :
      (cursor : ℕ) → IsTotalOrder ops → Decides (scored_cmp ops cursor) Scored LessPressed
  unfolding scored_cmp
  scored_cmp-Decides cursor order = record {
    below = λ x y (s, p) (t, q) n h. n (ground arith);
    above = λ x y (s, p) (t, q) h k. ground (arith, order.flips s.pressure t.pressure);
    reflexive = λ x (s, p) h. ground (arith, order.flips s.pressure s.pressure);
    transitive = λ x y z (s, p) (t, q) (u, r) a b h.
        order.transitive s.pressure t.pressure u.pressure (λ e. a (ground arith))
          (λ e. b (ground arith)) (ground arith);
  }

  inflight_cmp-Decides :
      (cursor : ℕ)
      → Decides (inflight_cmp ops cursor) (λ c. Unit {0}) (λ c d. c.local_active ≤ d.local_active)
  unfolding inflight_cmp
  inflight_cmp-Decides cursor = record {
    below = λ x y p q n. ground arith;
    above = λ x y p q h. ground arith;
    reflexive = λ x p. omega arith;
    transitive = λ x y z p q r a b. omega arith;
  }

  -- The candidates that are kept, and what is least among them is so among all.
  retain_scored-Scored : (cs : List (Candidate F)) → All Scored (retain_scored ops cs)
  unfolding retain_scored
  retain_scored-Scored [] = tt
  retain_scored-Scored (c ∷ cs) = elim (Option-cases c.score) [
    | inl missing ↦
        let e : retain_scored ops (c ∷ cs) ≡ retain_scored ops cs = ground arith in
        subst (All Scored) (sym e) (retain_scored-Scored cs)
    | inr (s, found) ↦
        let e : retain_scored ops (c ∷ cs) ≡ c ∷ retain_scored ops cs = ground arith in
        subst (All Scored) (sym e) ((s, found), retain_scored-Scored cs)
  ]

  LessPressed-NotAbove : (c d : Candidate F) → Scored c → LessPressed c d → NotAbove c d
  LessPressed-NotAbove c d (s, p) h t q = (s, p, λ e. h (ground arith))

  retained-NotAbove :
      (c : Candidate F) (cs : List (Candidate F))
      → Scored c
      → All (LessPressed c) (retain_scored ops cs)
      → All (NotAbove c) cs
  unfolding retain_scored
  retained-NotAbove c [] s a = tt
  retained-NotAbove c (d ∷ cs) s a = elim (Option-cases d.score) [
    | inl missing ↦
        let e : retain_scored ops (d ∷ cs) ≡ retain_scored ops cs = ground arith in
        ((λ t q. absurd (ground arith)), retained-NotAbove c cs s (subst (All (LessPressed c)) e a))
    | inr (t, found) ↦
        let e : retain_scored ops (d ∷ cs) ≡ d ∷ retain_scored ops cs = ground arith in
        let (b, rest) = subst (All (LessPressed c)) e a in
        (LessPressed-NotAbove c d s b, retained-NotAbove c cs s rest)
  ]

  -- If any candidate has a score, the first that is tried has one, and its pressure is not above that
  -- of any scored candidate.
  pub order_candidates-least_pressure :
      (cursor : ℕ) (cs rest : List (Candidate F)) (c : Candidate F)
      → IsTotalOrder ops
      → any_scored ops cs ≡ true
      → order_candidates ops cursor cs ≡ c ∷ rest
      → ((s : LeastPressureV1Score F) × (c.score ≡ some s)) × All (NotAbove c) cs
  unfolding order_candidates
  order_candidates-least_pressure cursor cs rest c order h e =
      let f : sort_by ops (scored_cmp ops cursor) (retain_scored ops cs) ≡ c ∷ rest =
        ground arith in
      let scored = sort_by-All ops (scored_cmp ops cursor) Scored _ (retain_scored-Scored cs) in
      let (s, _) = subst (All Scored) f scored in
      (
        s,
        retained-NotAbove c cs s (
            sort_by-least ops _ (scored_cmp-Decides cursor order) (retain_scored ops cs) rest c
              (retain_scored-Scored cs) f),
      )

  All-unit : (cs : List (Candidate F)) → All (λ c. Unit {0}) cs
  All-unit [] = tt
  All-unit (c ∷ cs) = (tt, All-unit cs)

  -- If none has a score, the first that is tried has the fewest requests in flight.
  pub order_candidates-least_inflight :
      (cursor : ℕ) (cs rest : List (Candidate F)) (c : Candidate F)
      → any_scored ops cs ≡ false
      → order_candidates ops cursor cs ≡ c ∷ rest
      → All (λ d. c.local_active ≤ d.local_active) cs
  unfolding order_candidates
  order_candidates-least_inflight cursor cs rest c h e =
      sort_by-least ops _ (inflight_cmp-Decides cursor) cs rest c (All-unit cs) (ground arith)
