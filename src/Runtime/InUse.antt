-- ===== src/Runtime/InUse.antt =====
-- The guard of a reload on backends in use (src/runtime.rs), without its words.
use mistralrs_proxy.Prelude.{
  ℕ, sym, ◌≢◌, ◌≡◌, ap, ◌∙◌, ◌⊎◌, inl, inr, true, none, some, List, [], ◌∷◌, ◌++◌, arith, All,
  Bool-cases, Option-cases, Str, str_eq_iff,
}
use mistralrs_proxy.Prelude.Maps.{lookup}
use mistralrs_proxy.Backend.Slot.{disabled, BackendSlot, snapshot}
use mistralrs_proxy.Backend.Registry.{BackendRegistry, get_retained}
use mistralrs_proxy.Runtime.{Backend, UriOps}
use mistralrs_proxy.Runtime.Apply.{
  BackendChange, removed, changed_endpoints, by_id, same_endpoints, change_of, refuses,
  check_current,
}

module _ {U : Type 0} (uris : UriOps U) where
  pub check_current-none :
      (now : ℕ) (slots : BackendRegistry) (desired current : List (Backend U))
      → check_current uris now slots desired current ≡ none
      → All (λ old. refuses uris now slots desired old ≡ none) current
  unfolding check_current
  check_current-none now slots desired [] e = tt
  check_current-none now slots desired (old ∷ later) e =
      elim (Option-cases (refuses uris now slots desired old)) [
        | inr (x, bad) ↦ absurd (ground arith)
        | inl fine ↦ (fine, check_current-none now slots desired later (ground arith))
      ]

  -- The same URL, metrics URL and readiness URL.
  pub record SameUris (a b : Backend U) : Type 0 where
    pub same_url : uris.uri_eq a.url b.url ≡ true
    pub same_metrics_url : uris.uri_eq a.metrics_url b.metrics_url ≡ true
    pub same_readiness_url : uris.uri_eq a.readiness_url b.readiness_url ≡ true

  pub same_endpoints-SameUris : (a b : Backend U) → same_endpoints uris a b ≡ true → SameUris a b
  same_endpoints-SameUris a b e = record {
    same_url = ground arith;
    same_metrics_url = ground arith;
    same_readiness_url = ground arith;
  }

  pub SameUris-same_endpoints : (a b : Backend U) → SameUris a b → same_endpoints uris a b ≡ true
  SameUris-same_endpoints a b s =
      ground (arith, s.same_url, s.same_metrics_url, s.same_readiness_url)

  -- A desired backend with the id and the URLs of `old`.
  pub record StaysIn (desired : List (Backend U)) (old : Backend U) : Type 0 where
    pub kept : Backend U
    pub earlier : List (Backend U)
    pub later : List (Backend U)
    pub is_desired : desired ≡ earlier ++ (kept ∷ later)
    pub same_id : kept.id ≡ old.id
    pub same_uris : SameUris kept old

  by_id-some :
      (id : Str) (bs : List (Backend U)) (b : Backend U)
      → by_id uris id bs ≡ some b
      → (earlier later : List (Backend U)) × (bs ≡ earlier ++ (b ∷ later)) × (b.id ≡ id)
  unfolding by_id
  by_id-some id [] b e = absurd (ground arith)
  by_id-some id (c ∷ bs) b e = elim (Option-cases (by_id uris id bs)) [
    | inr (d, found) ↦
        let (earlier, later, split, is) = by_id-some id bs b (ground arith) in
        (c ∷ earlier, later, ap (λ xs. c ∷ xs) split, is)
    | inl not_later ↦
        let is : c ≡ b = ground arith in
        (
          [],
          bs,
          ap (λ x. x ∷ bs) is,
          ap (λ (x : Backend U). x.id) (sym is) ∙ (str_eq_iff c.id id).0 (ground arith),
        )
  ]

  -- A backend whose slot is not disabled, or holds a lease, stays among the desired ones.
  abbrev pub InUseStays : BackendRegistry → List (Backend U) → Backend U → Type 0
  InUseStays slots desired old =
      (slot : BackendSlot)
      → lookup old.id slots ≡ some slot
      → (slot.mode ≢ disabled) ⊎ (slot.leases ≢ [])
      → StaysIn desired old

  refuses-in_use :
      (now : ℕ) (slots : BackendRegistry) (desired : List (Backend U)) (old : Backend U)
      (slot : BackendSlot) (change : BackendChange)
      → refuses uris now slots desired old ≡ none
      → change_of uris old desired ≡ some change
      → lookup old.id slots ≡ some slot
      → (slot.mode ≡ disabled) × (slot.leases ≡ [])
  unfolding refuses get_retained snapshot
  refuses-in_use now slots desired old slot change fine changed found = ground arith

  pub refuses-InUseStays :
      (now : ℕ) (slots : BackendRegistry) (desired : List (Backend U)) (old : Backend U)
      → refuses uris now slots desired old ≡ none
      → InUseStays slots desired old
  unfolding change_of
  refuses-InUseStays now slots desired old fine slot found busy =
      let idle : (change : BackendChange) → change_of uris old desired ≡ some change → ⊥ =
        λ change changed.
          let (closed, free) =
            refuses-in_use now slots desired old slot change fine changed found in
          elim busy [ inl open_now ↦ open_now closed | inr held ↦ held free ] in
      elim (Option-cases (by_id uris old.id desired)) [
        | inl missing ↦ absurd (idle removed (ground arith))
        | inr (b, known) ↦ elim (Bool-cases (same_endpoints uris b old)) [
          | inr moved ↦ absurd (idle changed_endpoints (ground arith))
          | inl same ↦
              let (earlier, later, split, is) = by_id-some old.id desired b known in
              record {
                kept = b;
                earlier = earlier;
                later = later;
                is_desired = split;
                same_id = is;
                same_uris = same_endpoints-SameUris b old same;
              }
        ]
      ]
