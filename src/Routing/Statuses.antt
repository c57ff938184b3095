-- ===== src/Routing/Statuses.antt =====
-- `statuses` and `status` of src/routing.rs: the report on every configured backend, and on one, from
-- the snapshots of the registry and the live map as it is brought up to date.
use mistralrs_proxy.Prelude.{
  ℕ, ◌≡◌, refl, sym, ap, subst, ◌∙◌, inl, inr, true, Option, none, some, List, [], ◌∷◌, arith, All,
  Bool-cases, Option-cases, if◌then◌else◌, Str, str_eq, str_eq_iff,
}
use mistralrs_proxy.Prelude.Maps.{Map, lookup}
use mistralrs_proxy.Backend.Slot.{BackendSlot, BackendSnapshot, snapshot}
use mistralrs_proxy.Backend.Registry.{BackendRegistry, str_leb, insert_snapshot, snapshots}
use mistralrs_proxy.Routing.{LiveBackend}
use mistralrs_proxy.Routing.Health.{RoutingInner, ensure_backends}
use mistralrs_proxy.Routing.Pressure.{FloatOps, BackendConfig}
use mistralrs_proxy.Routing.Select.{RoutingParts}
use mistralrs_proxy.Routing.Status.{BackendStatusSnapshot, status_of, status_snapshot}

-- Every slot stands under its own id, once.
abbrev pub Keyed : BackendRegistry → Type 0
Keyed [] = Unit
Keyed ((id, slot) ∷ slots) = (slot.spec.id ≡ id) × (lookup id slots ≡ none) × Keyed slots

-- A snapshot of the registered slot that its id has.
pub record IsOf (now : ℕ) (slots : BackendRegistry) (s : BackendSnapshot) : Type 0 where
  pub slot : BackendSlot
  pub found : lookup s.spec.id slots ≡ some slot
  pub registered : slot.registered ≡ true
  pub taken : s ≡ snapshot now slot.state

insert_snapshot-All :
    (Q : BackendSnapshot → Type 0) (x : BackendSnapshot) (ys : List BackendSnapshot)
    → Q x
    → All Q ys
    → All Q (insert_snapshot x ys)
insert_snapshot-All Q x [] q a = (q, tt)
insert_snapshot-All Q x (y ∷ ys) q (b, a) = elim (Bool-cases (str_leb x.spec.id y.spec.id)) [
  | inl first ↦
      subst (All Q) (sym (ap (λ t. if t then x ∷ y ∷ ys else y ∷ insert_snapshot x ys) first))
        (q, (b, a))
  | inr later ↦
      subst (All Q) (sym (ap (λ t. if t then x ∷ y ∷ ys else y ∷ insert_snapshot x ys) later))
        (b, insert_snapshot-All Q x ys q a)
]

All-weaken :
    (P Q : BackendSnapshot → Type 0) (xs : List BackendSnapshot)
    → ((x : BackendSnapshot) → P x → Q x)
    → All P xs
    → All Q xs
All-weaken P Q [] f a = tt
All-weaken P Q (x ∷ xs) f (p, a) = (f x p, All-weaken P Q xs f a)

cons-IsOf :
    (now : ℕ) (id : Str) (slot : BackendSlot) (slots : BackendRegistry) (s : BackendSnapshot)
    → lookup id slots ≡ none
    → IsOf now slots s
    → IsOf now ((id, slot) ∷ slots) s
unfolding lookup
cons-IsOf now id slot slots s new o =
    let e = o.found in
    record {
      slot = o.slot;
      found = ground (arith, str_eq_iff id s.spec.id);
      registered = o.registered;
      taken = o.taken;
    }

pub snapshots-IsOf :
    (now : ℕ) (slots : BackendRegistry) → Keyed slots → All (IsOf now slots) (snapshots now slots)
unfolding snapshots lookup snapshot
snapshots-IsOf now [] k = tt
snapshots-IsOf now ((id, slot) ∷ slots) (own, new, k) =
    let rest =
      All-weaken (IsOf now slots) (IsOf now ((id, slot) ∷ slots)) (snapshots now slots)
        (λ s o. cons-IsOf now id slot slots s new o) (snapshots-IsOf now slots k) in
    elim (Bool-cases slot.registered) [
      | inl registered ↦
          let e : snapshots now ((id, slot) ∷ slots)
              ≡ insert_snapshot (snapshot now slot.state) (snapshots now slots) =
            ground arith in
          subst (All (IsOf now ((id, slot) ∷ slots))) (sym e) (
            insert_snapshot-All (IsOf now ((id, slot) ∷ slots)) (snapshot now slot.state)
              (snapshots now slots)
              (record {
                slot = slot;
                found = ground (arith, str_eq_iff id slot.spec.id);
                registered = registered;
                taken = refl;
              })
              rest)
      | inr retired ↦
          let e : snapshots now ((id, slot) ∷ slots) ≡ snapshots now slots = ground arith in
          subst (All (IsOf now ((id, slot) ∷ slots))) (sym e) rest
    ]

module _ {F : Type 0} (ops : FloatOps F) (configs : Map (BackendConfig × ℕ)) (generations : Map ℕ)
    (stale_after : ℕ) (kv_soft_limit : F) where
  unfoldable pub statuses_of :
      ℕ → RoutingInner F → List BackendSnapshot → List (BackendStatusSnapshot F)
  statuses_of now inner [] = []
  statuses_of now inner (s ∷ ss) =
      let rest = statuses_of now inner ss in
      elim (status_of ops configs now stale_after kv_soft_limit inner s) [
        | none ↦ rest
        | some status ↦ status ∷ rest
      ]

  abbrev pub ensured : RoutingParts F → RoutingParts F
  ensured st = record st { inner = ensure_backends generations st.inner }

  -- The reports, from a live map that is up to date.
  unfoldable pub statuses : ℕ → RoutingParts F → List (BackendStatusSnapshot F)
  unfolding statuses_of
  statuses now st =
      statuses_of now (ensure_backends generations st.inner) (snapshots now st.registry)

  unfoldable pub find_status :
      Str → List (BackendStatusSnapshot F) → Option (BackendStatusSnapshot F)
  find_status id [] = none
  find_status id (s ∷ ss) = if str_eq s.id id then some s else find_status id ss

  unfoldable pub status : ℕ → Str → RoutingParts F → Option (BackendStatusSnapshot F)
  unfolding statuses find_status
  status now id st = find_status id (statuses now st)

  -- What a status that is found tells: it is the report on the registered slot of that id, with the
  -- live entry of that id.
  pub record Reports (now : ℕ) (id : Str) (st : RoutingParts F) (s : BackendStatusSnapshot F)
      : Type 0 where
    pub slot : BackendSlot
    pub live : LiveBackend F
    pub config : BackendConfig
    pub slot_found : lookup id st.registry ≡ some slot
    pub registered : slot.registered ≡ true
    pub live_found : lookup id (ensure_backends generations st.inner).backends ≡ some live
    pub reported :
        s ≡ status_snapshot ops (snapshot now slot.state) live config now stale_after kv_soft_limit

  status_of-id :
      (now : ℕ) (inner : RoutingInner F) (sn : BackendSnapshot) (s : BackendStatusSnapshot F)
      → status_of ops configs now stale_after kv_soft_limit inner sn ≡ some s
      → (live : LiveBackend F) × (config : BackendConfig) × (lookup sn.spec.id inner.backends
          ≡ some live)
        × (s ≡ status_snapshot ops sn live config now stale_after kv_soft_limit)
  unfolding status_of
  status_of-id now inner sn s e = elim (Option-cases (lookup sn.spec.id configs)) [
    | inl missing ↦ absurd (ground arith)
    | inr ((config, generation), configured) ↦
        elim (Option-cases (lookup sn.spec.id inner.backends)) [
          | inl missing ↦ absurd (ground arith)
          | inr (live, found) ↦ (live, config, found, ground arith)
        ]
  ]

  find_status-statuses_of :
      (now : ℕ) (id : Str) (inner : RoutingInner F) (Q : BackendSnapshot → Type 0)
      (ss : List BackendSnapshot) (s : BackendStatusSnapshot F)
      → All Q ss
      → find_status id (statuses_of now inner ss) ≡ some s
      → (sn : BackendSnapshot) × Q sn
        × (str_eq s.id id ≡ true)
        × (status_of ops configs now stale_after kv_soft_limit inner sn ≡ some s)
  unfolding statuses_of find_status
  find_status-statuses_of now id inner Q [] s a e = absurd (ground arith)
  find_status-statuses_of now id inner Q (x ∷ ss) s (q, a) e =
      elim (Option-cases (status_of ops configs now stale_after kv_soft_limit inner x)) [
        | inl skipped ↦ find_status-statuses_of now id inner Q ss s a (ground arith)
        | inr (y, reported) ↦ elim (Bool-cases (str_eq y.id id)) [
          | inl same ↦
              let e' : y ≡ s = ground arith in (x, q, ground arith, reported ∙ ap (λ t. some t) e')
          | inr other ↦ find_status-statuses_of now id inner Q ss s a (ground arith)
        ]
      ]

  -- A status that is found is a report on the backend that was asked for, from its registered slot and
  -- its live entry, where every slot stands under its own id.
  pub status-Reports :
      (now : ℕ) (id : Str) (st : RoutingParts F) (s : BackendStatusSnapshot F)
      → Keyed st.registry
      → status now id st ≡ some s
      → Reports now id st s
  unfolding status statuses status_snapshot snapshot
  status-Reports now id st s k e =
      let inner = ensure_backends generations st.inner in
      let (sn, o, same, reported) =
        find_status-statuses_of now id inner (IsOf now st.registry) (snapshots now st.registry) s
          (snapshots-IsOf now st.registry k) e in
      let (live, config, found, shown) = status_of-id now inner sn s reported in
      let own : sn.spec.id ≡ id =
        sym (ap (λ (t : BackendStatusSnapshot F). t.id) shown) ∙ (str_eq_iff s.id id).0 same in
      record {
        slot = o.slot;
        live = live;
        config = config;
        slot_found = ap (λ i. lookup i st.registry) (sym own) ∙ o.found;
        registered = o.registered;
        live_found = ap (λ i. lookup i inner.backends) (sym own) ∙ found;
        reported =
            shown
            ∙ ap (λ t. status_snapshot ops t live config now stale_after kv_soft_limit) o.taken;
      }
