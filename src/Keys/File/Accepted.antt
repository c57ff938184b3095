-- ===== src/Keys/File/Accepted.antt =====
-- A validated key file and the index of the store (src/keys.rs, src/auth.rs).
use mistralrs_proxy.Prelude.{
  ℕ, sym, subst, ◌+◌, ◌≡◌, refl, inl, inr, Bool, true, false, none, some, List, [], ◌∷◌, ◌++◌,
  arith, Bool-cases, Option-cases, Str, str_eq, str_eq_iff, map,
}
use mathlib.Core.List.{append-nil, append_assoc}
use mistralrs_proxy.Backend.Slot.{ok}
use mistralrs_proxy.Keys.{decode_digest, hex_encode}
use mistralrs_proxy.Keys.Hex.{to_ascii_lowercase, decode_digest-eq_iff}
use mistralrs_proxy.Keys.File.{
  KeyRecord, KeyFile, KeyIdentity, any_digest, check_key, check_keys, validate, KeyIndex,
  any_enabled, contains, push_records, from_records, identity_of,
}

-- Digests in the order of their records.
abbrev Decodes : List KeyRecord → List (List ℕ) → Type 0
Decodes [] [] = Unit
Decodes [] (d ∷ ds) = ⊥
Decodes (r ∷ rs) [] = ⊥
Decodes (r ∷ rs) (d ∷ ds) = (decode_digest r.key_sha256 ≡ some d) × Decodes rs ds

any_digest-contains :
    (rs : List KeyRecord) (ds : List (List ℕ)) (r : KeyRecord) (d : List ℕ)
    → Decodes rs ds
    → decode_digest r.key_sha256 ≡ some d
    → any_digest r.key_sha256 rs ≡ false
    → contains d ds ≡ false
unfolding any_digest contains
any_digest-contains [] [] r d a e n = refl
any_digest-contains [] (x ∷ ds) r d a e n = absurd a
any_digest-contains (s ∷ rs) [] r d a e n = absurd a
any_digest-contains (s ∷ rs) (x ∷ ds) r d (f, a) e n =
    let i = any_digest-contains rs ds r d a e (ground arith) in
    let same = decode_digest-eq_iff s.key_sha256 r.key_sha256 x d f e in
    let lower =
      str_eq_iff (map to_ascii_lowercase s.key_sha256) (map to_ascii_lowercase r.key_sha256) in
    elim (Bool-cases (str_eq x d)) [
      | inl equal ↦ let k = lower.1 (same.0 ((str_eq_iff x d).0 equal)) in absurd (ground arith)
      | inr other ↦ ground arith
    ]

check_key-none :
    (is_blank : Str → Bool) (earlier : List KeyRecord) (position : ℕ) (r : KeyRecord)
    → check_key is_blank earlier position r ≡ none
    → (d : List ℕ) × (decode_digest r.key_sha256 ≡ some d)
      × (any_digest r.key_sha256 earlier ≡ false)
unfolding check_key
check_key-none is_blank earlier position r e = elim (Option-cases (decode_digest r.key_sha256)) [
  | inl missing ↦ absurd (ground arith)
  | inr (d, found) ↦ (d, found, ground arith)
]

-- The identity of a record: its own name, identifier and flags, and the digest that its text stands for.
pub record Identifies (r : KeyRecord) (d : List ℕ) (i : KeyIdentity) : Type 0 where
  pub digest_decoded : decode_digest r.key_sha256 ≡ some d
  pub digest_shown : i.key_sha256 ≡ hex_encode d
  pub name_kept : i.name ≡ r.name
  pub identifier_kept : i.identifier ≡ r.identifier
  pub admin_kept : i.admin ≡ r.admin
  pub disabled_kept : i.disabled ≡ r.disabled

-- Digests and identities in the order of their records.
abbrev pub Indexes : List KeyRecord → List (List ℕ) → List KeyIdentity → Type 0
Indexes [] [] [] = Unit
Indexes (r ∷ rs) (d ∷ ds) (i ∷ is) = Identifies r d i × Indexes rs ds is
Indexes _ _ _ = ⊥

append-Indexes :
    (rs : List KeyRecord) (ds : List (List ℕ)) (is : List KeyIdentity) (r : KeyRecord) (d : List ℕ)
    (i : KeyIdentity)
    → Indexes rs ds is
    → Identifies r d i
    → Indexes (rs ++ (r ∷ [])) (ds ++ (d ∷ [])) (is ++ (i ∷ []))
append-Indexes [] [] [] r d i a e = (e, tt)
append-Indexes (s ∷ rs) (x ∷ ds) (j ∷ is) r d i (f, a) e = (f, append-Indexes rs ds is r d i a e)
append-Indexes [] [] (j ∷ is) r d i a e = absurd a
append-Indexes [] (x ∷ ds) is r d i a e = absurd a
append-Indexes (s ∷ rs) [] is r d i a e = absurd a
append-Indexes (s ∷ rs) (x ∷ ds) [] r d i a e = absurd a

Indexes-Decodes :
    (rs : List KeyRecord) (ds : List (List ℕ)) (is : List KeyIdentity)
    → Indexes rs ds is
    → Decodes rs ds
Indexes-Decodes [] [] [] a = tt
Indexes-Decodes (s ∷ rs) (x ∷ ds) (j ∷ is) (f, a) = (f.digest_decoded, Indexes-Decodes rs ds is a)
Indexes-Decodes [] [] (j ∷ is) a = absurd a
Indexes-Decodes [] (x ∷ ds) is a = absurd a
Indexes-Decodes (s ∷ rs) [] is a = absurd a
Indexes-Decodes (s ∷ rs) (x ∷ ds) [] a = absurd a

identity_of-Identifies :
    (r : KeyRecord) (d : List ℕ)
    → decode_digest r.key_sha256 ≡ some d
    → Identifies r d (identity_of r d)
identity_of-Identifies r d found = record {
  digest_decoded = found;
  digest_shown = refl;
  name_kept = refl;
  identifier_kept = refl;
  admin_kept = refl;
  disabled_kept = refl;
}

check_keys-pushed :
    (is_blank : Str → Bool) (earlier rs : List KeyRecord) (n : ℕ) (index : KeyIndex)
    → Indexes earlier index.digests index.identities
    → check_keys is_blank earlier n rs ≡ ok tt
    → (after : KeyIndex) × (push_records rs index ≡ ok after)
      × Indexes (earlier ++ rs) after.digests after.identities
unfolding check_keys push_records
check_keys-pushed is_blank earlier [] n index a e = (
  index,
  refl,
  subst (λ ks. Indexes ks index.digests index.identities) (sym (append-nil earlier)) a,
)
check_keys-pushed is_blank earlier (r ∷ rs) n index a e =
    elim (Option-cases (check_key is_blank earlier (n + 1) r)) [
      | inl good ↦
          let (d, found, new) = check_key-none is_blank earlier (n + 1) r good in
          let next : KeyIndex = record {
            digests = index.digests ++ (d ∷ []);
            identities = index.identities ++ (identity_of r d ∷ []);
          } in
          let (after, pushed, all) =
            check_keys-pushed is_blank (earlier ++ (r ∷ [])) rs (n + 1) next
              (append-Indexes earlier index.digests index.identities r d (identity_of r d) a
                (identity_of-Identifies r d found))
              (ground arith) in
          let fresh =
            any_digest-contains earlier index.digests r d
              (Indexes-Decodes earlier index.digests index.identities a) found new in
          (
            after,
            ground arith,
            subst (λ ks. Indexes ks after.digests after.identities)
                (append_assoc earlier (r ∷ []) rs) all,
          )
      | inr (x, bad) ↦ absurd (ground arith)
    ]

from_records-checked :
    (is_blank : Str → Bool) (keys : List KeyRecord)
    → check_keys is_blank [] 0 keys ≡ ok tt
    → any_enabled keys ≡ true
    → (index : KeyIndex) × (from_records keys ≡ ok index)
      × Indexes keys index.digests index.identities
unfolding from_records any_enabled
from_records-checked is_blank [] c e = absurd (ground arith)
from_records-checked is_blank (r ∷ rs) c e =
    let (index, pushed, all) =
      check_keys-pushed is_blank [] (r ∷ rs) 0 (record { digests = []; identities = [] }) tt c in
    (index, ground arith, all)

-- A key file that validates, with a key that is not disabled, is accepted by the store: the index
-- finds no digest malformed or shared, and it has, in the order of the keys, the digest and the identity
-- of each, with its own name, identifier, digest in hexadecimal and flags (`Indexes`).
pub from_records-validate :
    (is_blank : Str → Bool) (file : KeyFile)
    → validate is_blank file ≡ ok tt
    → any_enabled file.keys ≡ true
    → (index : KeyIndex) × (from_records file.keys ≡ ok index)
      × Indexes file.keys index.digests index.identities
unfolding validate
from_records-validate is_blank file v e = from_records-checked is_blank file.keys (ground arith) e
