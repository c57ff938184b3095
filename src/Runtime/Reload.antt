-- ===== src/Runtime/Reload.antt =====
-- What applying a configuration makes of the registry and of the generations (src/runtime.rs).
use mistralrs_proxy.Prelude.{
  ℕ, ◌≤◌, ◌<◌, ◌≡◌, refl, ap, ◌∙◌, ◌⊎◌, inl, inr, true, false, some, List, [], ◌∷◌, ◌++◌, arith,
  All, Bool-cases, Option-cases, Str, str_eq, str_eq_iff, str_eq_refl,
}
use mistralrs_proxy.Prelude.Maps.{Map, lookup, insert, lookup-insert}
use mistralrs_proxy.Prelude.Monad.{returned, Outcome-cases}
use mistralrs_proxy.Backend.Slot.{BackendMode, BackendSpec, ok, err, Result-cases}
use mistralrs_proxy.Backend.Registry.{
  BackendRegistry, ReconcileError, collect, apply_desired, reconcile, snapshots,
}
use mistralrs_proxy.Backend.Registry.Desired.{occurrences}
use mistralrs_proxy.Runtime.{Backend, UriOps, registry_spec}
use mistralrs_proxy.Runtime.Config.{contains_id}
use mistralrs_proxy.Runtime.Accepted.{Unrepeated}
use mistralrs_proxy.Runtime.Apply.{
  by_id, same_endpoints, generation_for, assign_generations, specs_of, restore_each, reassert_each,
  reconcile_modes,
}
use mistralrs_proxy.Runtime.InUse.{SameUris, same_endpoints-SameUris, SameUris-same_endpoints}

-- A reconciliation that reports an error leaves the registry as it was.
reconcile-err :
    (specs : List BackendSpec) (slots after : BackendRegistry) (x : ReconcileError)
    → reconcile specs slots ≡ returned (err x) after
    → slots ≡ after
unfolding reconcile
reconcile-err specs slots after x e = elim (Result-cases (collect specs [])) [
  | inr (y, bad) ↦ ground arith
  | inl (desired, good) ↦ elim (Outcome-cases (apply_desired desired slots)) [
    | inr (u, broken) ↦ absurd (ground arith)
    | inl (report, u, ran) ↦ absurd (ground arith)
  ]
]

module _ {U : Type 0} (uris : UriOps U) where
  pub reconcile_modes-err :
      (now : ℕ) (modes : Map BackendMode) (bs : List (Backend U)) (slots after : BackendRegistry)
      (x : ReconcileError)
      → reconcile_modes uris now modes bs slots ≡ returned (err x) after
      → (reconcile (specs_of uris bs) slots ≡ returned (err x) after) × (slots ≡ after)
  unfolding reconcile_modes
  reconcile_modes-err now modes bs slots after x e =
      elim (Outcome-cases (reconcile (specs_of uris bs) slots)) [
        | inr (u, broken) ↦ absurd (ground arith)
        | inl (err y, u, ran) ↦
            let refused : reconcile (specs_of uris bs) slots ≡ returned (err x) after =
              ground arith in
            (refused, reconcile-err (specs_of uris bs) slots after x refused)
        | inl (ok report, u, ran) ↦
            elim (Outcome-cases (restore_each now modes (report.added ++ report.revived) u)) [
              | inr (v, broken) ↦ absurd (ground arith)
              | inl (t, v, restored) ↦
                  elim (Outcome-cases (reassert_each now modes (snapshots now v) v)) [
                    | inr (w, broken) ↦ absurd (ground arith)
                    | inl (s, w, reasserted) ↦ absurd (ground arith)
                  ]
            ]
      ]

  contains_id-Unrepeated :
      (id : Str) (ids : List Str) (bs : List (Backend U))
      → contains_id id ids ≡ true
      → Unrepeated uris ids bs
      → (occurrences id (specs_of uris bs) ≡ 0) × All (λ b. str_eq b.id id ≡ false) bs
  unfolding specs_of registry_spec
  contains_id-Unrepeated id ids [] c u = (refl, tt)
  contains_id-Unrepeated id ids (b ∷ bs) c (new, u) =
      let (rest, all) = contains_id-Unrepeated id (b.id ∷ ids) bs (ground arith) u in
      let other : str_eq b.id id ≡ false = elim (Bool-cases (str_eq b.id id)) [
        | inl same ↦
            let is = (str_eq_iff b.id id).0 same in
            absurd (ground (arith, ap (λ j. contains_id j ids) is))
        | inr other ↦ other
      ] in
      (ground arith, (other, all))

  pub Unrepeated-once :
      (id : Str) (ids : List Str) (bs : List (Backend U))
      → Unrepeated uris ids bs
      → occurrences id (specs_of uris bs) ≤ 1
  unfolding specs_of registry_spec
  Unrepeated-once id ids [] u = ground arith
  Unrepeated-once id ids (b ∷ bs) (new, u) = elim (Bool-cases (str_eq b.id id)) [
    | inr other ↦ let rest = Unrepeated-once id (b.id ∷ ids) bs u in ground arith
    | inl same ↦
        let is = (str_eq_iff b.id id).0 same in
        let (none_left, all) =
          contains_id-Unrepeated id (b.id ∷ ids) bs
            (ground (arith, ap (λ j. str_eq id j) is, str_eq_refl id)) u in
        ground arith
  ]

  -- What `assign_generations` gives a backend: its old generation, for the endpoints that it had, or a
  -- generation that was not given before.
  pub record Assigned (current : List (Backend U)) (generations : Map ℕ) (next after : ℕ)
      (assigned : Map ℕ) (b : Backend U) : Type 0 where
    pub generation : ℕ
    pub found : lookup b.id assigned ≡ some generation
    pub kept_or_new :
        ((old : Backend U) × (by_id uris b.id current ≡ some old)
          × SameUris uris old b
          × (lookup b.id generations ≡ some generation))
        ⊎ ((next ≤ generation)
            × (generation < after)
            × ((old : Backend U) → by_id uris b.id current ≡ some old → ¬ SameUris uris old b))

  generation_for-cases :
      (current : List (Backend U)) (generations : Map ℕ) (next g after : ℕ) (b : Backend U)
      → generation_for uris current generations next b ≡ some (g, after)
      → (next ≤ after)
        × (((old : Backend U) × (by_id uris b.id current ≡ some old)
              × SameUris uris old b
              × (lookup b.id generations ≡ some g))
            ⊎ ((next ≤ g)
                × (g < after)
                × ((old : Backend U) → by_id uris b.id current ≡ some old → ¬ SameUris uris old b)))
  unfolding generation_for
  generation_for-cases current generations next g after b e =
      elim (Option-cases (by_id uris b.id current)) [
        | inl new ↦
            (ground arith, inr (ground arith, ground arith, (λ old found. absurd (ground arith))))
        | inr (old, known) ↦ elim (Bool-cases (same_endpoints uris old b)) [
          | inl same ↦ elim (Option-cases (lookup b.id generations)) [
            | inl missing ↦ absurd (ground arith)
            | inr (h, had) ↦ (
              ground arith,
              inl (old, known, same_endpoints-SameUris uris old b same, ground arith),
            )
          ]
          | inr moved ↦ (
            ground arith,
            inr (
              ground arith,
              ground arith,
              (λ other found s.
                  let is : old ≡ other = ground arith in
                  let same = SameUris-same_endpoints uris other b s in ground arith),
            ),
          )
        ]
      ]

  Assigned-weaken :
      (current : List (Backend U)) (generations : Map ℕ) (next mid after : ℕ) (filled : Map ℕ)
      (bs : List (Backend U))
      → next ≤ mid
      → All (Assigned current generations mid after filled) bs
      → All (Assigned current generations next after filled) bs
  Assigned-weaken current generations next mid after filled [] grows a = tt
  Assigned-weaken current generations next mid after filled (b ∷ bs) grows (x, a) = (
    record {
      generation = x.generation;
      found = x.found;
      kept_or_new = elim x.kept_or_new [
        | inl kept ↦ inl kept
        | inr (above, below, moved) ↦ inr (omega arith, below, moved)
      ];
    },
    Assigned-weaken current generations next mid after filled bs grows a,
  )

  pub assign_generations-Assigned :
      (current : List (Backend U)) (generations : Map ℕ) (next : ℕ) (bs : List (Backend U))
      (ids : List Str) (assigned filled : Map ℕ) (after : ℕ)
      → Unrepeated uris ids bs
      → assign_generations uris current generations next bs assigned ≡ some (filled, after)
      → (next ≤ after)
        × ((id : Str)
            → All (λ b. str_eq b.id id ≡ false) bs
            → lookup id filled ≡ lookup id assigned)
        × All (Assigned current generations next after filled) bs
  unfolding assign_generations
  assign_generations-Assigned current generations next [] ids assigned filled after u e =
      (ground arith, (λ id absent. ground arith), tt)
  assign_generations-Assigned current generations next (b ∷ bs) ids assigned filled after (new, u)
        e =
      elim (Option-cases (generation_for uris current generations next b)) [
        | inl panics ↦ absurd (ground arith)
        | inr ((g, mid), given) ↦
            let (grows, kept) = generation_for-cases current generations next g mid b given in
            let (later, others, all) =
              assign_generations-Assigned current generations mid bs (b.id ∷ ids)
                (insert b.id g assigned) filled after u (ground arith) in
            let (none_left, absent) =
              contains_id-Unrepeated b.id (b.id ∷ ids) bs (ground (arith, str_eq_refl b.id)) u in
            (
              ground arith,
              (λ id (other, rest).
                  others id rest ∙ ground (arith, lookup-insert b.id id g assigned)),
              (
                record {
                  generation = g;
                  found =
                      others b.id absent
                      ∙ ground (arith, lookup-insert b.id b.id g assigned, str_eq_refl b.id);
                  kept_or_new = elim kept [
                    | inl same ↦ inl same
                    | inr (above, below, moved) ↦ inr (above, omega arith, moved)
                  ];
                },
                Assigned-weaken current generations next mid after filled bs grows all,
              ),
            )
      ]
