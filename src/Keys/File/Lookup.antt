-- ===== src/Keys/File/Lookup.antt =====
-- The lookup of a presented key (`KeyIndex::lookup` of src/auth.rs): every digest is compared, and the
-- last index that matches is kept. SHA-256 is a parameter.
use mistralrs_proxy.Prelude.{
  ℕ, zero, suc, ◌+◌, ◌≡◌, ◌≢◌, All, refl, sym, ap, ◌∙◌, subst, inl, inr, true, false, Option, none,
  some, List, [], ◌∷◌, ◌++◌, if◌then◌else◌, arith, Bool-cases, Option-cases, Str, str_eq,
  str_eq_refl, str_eq_iff, length, length-append,
}
use mistralrs_proxy.Prelude.Monad.{returned, panicked}
use mistralrs_proxy.Backend.Slot.{ok}
use mistralrs_proxy.Keys.{Called, decode_digest, hex_encode}
use mistralrs_proxy.Keys.File.{
  KeyRecord, KeyIdentity, KeyIndex, contains, identity_of, push_records, from_records,
}

-- The loop; `none` is the `u64::MAX` that `matched` starts with, which is no index.
unfoldable pub matching : List ℕ → ℕ → Option ℕ → List (List ℕ) → Option ℕ
matching digest index matched [] = matched
matching digest index matched (candidate ∷ candidates) =
    matching digest (index + 1) (if str_eq candidate digest then some index else matched) candidates

-- `identities[matched]`, which is out of range at `none`.
unfoldable pub identity_at : List KeyIdentity → ℕ → Option KeyIdentity
identity_at [] n = none
identity_at (i ∷ is) zero = some i
identity_at (i ∷ is) (suc n) = identity_at is n

-- `KeyIndex::lookup`.
unfoldable pub lookup_key : (Str → List ℕ) → Str → KeyIndex → Called (Str × Option KeyIdentity)
unfolding matching identity_at
lookup_key sha256 presented index =
    let digest = sha256 presented in
    elim (matching digest 0 none index.digests) [
      | none ↦ returned (hex_encode digest, none) tt
      | some n ↦ elim (identity_at index.identities n) [
        | none ↦ panicked tt
        | some i ↦ returned (hex_encode digest, some i) tt
      ]
    ]

matching-none :
    (x : List ℕ) (ds : List (List ℕ)) (n : ℕ) (m : Option ℕ)
    → contains x ds ≡ false
    → matching x n m ds ≡ m
unfolding matching contains
matching-none x [] n m h = refl
matching-none x (d ∷ ds) n m h = elim (Bool-cases (str_eq d x)) [
  | inl same ↦ absurd (ground arith)
  | inr other ↦ rw other (matching-none x ds (n + 1) m (ground arith))
]

matching-middle :
    (x : List ℕ) (pre post : List (List ℕ)) (n : ℕ) (m : Option ℕ)
    → contains x post ≡ false
    → matching x n m (pre ++ (x ∷ post)) ≡ some (n + length pre)
unfolding matching
matching-middle x [] post n m h =
    let kept : (if str_eq x x then some n else m) ≡ some (n + 0) = ground (arith, str_eq_refl x) in
    matching-none x post (n + 1) (if str_eq x x then some n else m) h ∙ kept
matching-middle x (d ∷ pre) post n m h =
    matching-middle x pre post (n + 1) (if str_eq d x then some n else m) h ∙ ap some (omega arith)

identity_at-middle :
    (pre post : List KeyIdentity) (i : KeyIdentity) (n : ℕ)
    → n ≡ length pre
    → identity_at (pre ++ (i ∷ post)) n ≡ some i
unfolding identity_at
identity_at-middle [] post i zero e = refl
identity_at-middle [] post i (suc n) e = absurd (omega arith)
identity_at-middle (j ∷ pre) post i zero e = absurd (omega arith)
identity_at-middle (j ∷ pre) post i (suc n) e = identity_at-middle pre post i n (omega arith)

append_nil : {A : Type 0} (xs : List A) → xs ++ [] ≡ xs
append_nil [] = refl
append_nil (x ∷ xs) = ap (λ t. x ∷ t) (append_nil xs)

append_assoc : {A : Type 0} (xs ys zs : List A) → (xs ++ ys) ++ zs ≡ xs ++ (ys ++ zs)
append_assoc [] ys zs = refl
append_assoc (x ∷ xs) ys zs = ap (λ t. x ∷ t) (append_assoc xs ys zs)

contains-append :
    (x : List ℕ) (cs bs : List (List ℕ)) → contains x cs ≡ true → contains x (cs ++ bs) ≡ true
unfolding contains
contains-append x [] bs h = absurd (ground arith)
contains-append x (a ∷ cs) bs h = ground (arith, contains-append x cs bs)

contains-last : (x : List ℕ) (cs : List (List ℕ)) → contains x (cs ++ (x ∷ [])) ≡ true
unfolding contains
contains-last x [] = ground (arith, str_eq_refl x)
contains-last x (a ∷ cs) = ground (arith, contains-last x cs)

absent-append :
    (x y : List ℕ) (cs : List (List ℕ))
    → contains x cs ≡ false
    → y ≢ x
    → contains x (cs ++ (y ∷ [])) ≡ false
unfolding contains
absent-append x y [] n d = elim (Bool-cases (str_eq y x)) [
  | inl same ↦ absurd (d ((str_eq_iff y x).0 same))
  | inr other ↦ ground arith
]
absent-append x y (c ∷ cs) n d = let i = absent-append x y cs (ground arith) d in ground (arith, i)

-- What more records do to the index: they push at its end, no digest that is there already.
record Extends (index after : KeyIndex) : Type 0 where
  digests_post : List (List ℕ)
  identities_post : List KeyIdentity
  digests_pushed : after.digests ≡ index.digests ++ digests_post
  identities_pushed : after.identities ≡ index.identities ++ identities_post
  new_digests : (x : List ℕ) → contains x index.digests ≡ true → contains x digests_post ≡ false

abbrev pushed_with : KeyRecord → List ℕ → KeyIndex → KeyIndex
pushed_with r x index = record {
  digests = index.digests ++ (x ∷ []);
  identities = index.identities ++ (identity_of r x ∷ []);
}

push_records-next :
    (r : KeyRecord) (rs : List KeyRecord) (index after : KeyIndex)
    → push_records (r ∷ rs) index ≡ ok after
    → (x : List ℕ) × (decode_digest r.key_sha256 ≡ some x)
      × (contains x index.digests ≡ false)
      × (push_records rs (pushed_with r x index) ≡ ok after)
unfolding push_records
push_records-next r rs index after e = elim (Option-cases (decode_digest r.key_sha256)) [
  | inl missing ↦ absurd (ground arith)
  | inr (x, found) ↦ elim (Bool-cases (contains x index.digests)) [
    | inl shared ↦ absurd (ground arith)
    | inr new ↦ (x, found, new, ground arith)
  ]
]

new-digest :
    (x y : List ℕ) (cs post : List (List ℕ))
    → contains x cs ≡ false
    → ((z : List ℕ) → contains z (cs ++ (x ∷ [])) ≡ true → contains z post ≡ false)
    → contains y cs ≡ true
    → contains y (x ∷ post) ≡ false
unfolding contains
new-digest x y cs post n h k =
    let l = h y (contains-append y cs (x ∷ []) k) in ground (arith, str_eq_iff x y)

push_records-Extends :
    (rs : List KeyRecord) (index after : KeyIndex)
    → push_records rs index ≡ ok after
    → Extends index after
unfolding push_records contains
push_records-Extends [] index after e =
    let same : index ≡ after = ground arith in
    record {
      digests_post = [];
      identities_post = [];
      digests_pushed = sym (append_nil index.digests ∙ ap (λ i. i.digests) same);
      identities_pushed = sym (append_nil index.identities ∙ ap (λ i. i.identities) same);
      new_digests = λ x h. refl;
    }
push_records-Extends (r ∷ rs) index after e =
    let (x, found, new, f) = push_records-next r rs index after e in
    let next = push_records-Extends rs (pushed_with r x index) after f in
    record {
      digests_post = x ∷ next.digests_post;
      identities_post = identity_of r x ∷ next.identities_post;
      digests_pushed = next.digests_pushed ∙ append_assoc index.digests (x ∷ []) next.digests_post;
      identities_pushed =
          next.identities_pushed
          ∙ append_assoc index.identities (identity_of r x ∷ []) next.identities_post;
      new_digests = λ y h. new-digest x y index.digests next.digests_post new next.new_digests h;
    }

-- Where the digest and the identity of a record stand in the index.
record Entry (r : KeyRecord) (x : List ℕ) (after : KeyIndex) : Type 0 where
  before : List (List ℕ)
  later : List (List ℕ)
  identities_before : List KeyIdentity
  identities_later : List KeyIdentity
  digests_split : after.digests ≡ before ++ (x ∷ later)
  identities_split : after.identities ≡ identities_before ++ (identity_of r x ∷ identities_later)
  same_place : length before ≡ length identities_before
  once : contains x later ≡ false

push_records-Entry :
    (before rs : List KeyRecord) (r : KeyRecord) (x : List ℕ) (index after : KeyIndex)
    → push_records (before ++ (r ∷ rs)) index ≡ ok after
    → decode_digest r.key_sha256 ≡ some x
    → length index.digests ≡ length index.identities
    → Entry r x after
push_records-Entry [] rs r x index after e d l =
    let (y, found, new, f) = push_records-next r rs index after e in
    let same : y ≡ x = ground arith in
    let next =
      push_records-Extends rs (pushed_with r x index) after
        (subst (λ z. push_records rs (pushed_with r z index) ≡ ok after) same f) in
    record {
      before = index.digests;
      later = next.digests_post;
      identities_before = index.identities;
      identities_later = next.identities_post;
      digests_split = next.digests_pushed ∙ append_assoc index.digests (x ∷ []) next.digests_post;
      identities_split =
          next.identities_pushed
          ∙ append_assoc index.identities (identity_of r x ∷ []) next.identities_post;
      same_place = l;
      once = next.new_digests x (contains-last x index.digests);
    }
push_records-Entry (q ∷ before) rs r x index after e d l =
    let (y, found, new, f) = push_records-next q (before ++ (r ∷ rs)) index after e in
    push_records-Entry before rs r x (pushed_with q y index) after f d (
      omega (
        arith,
        l,
        length-append index.digests (y ∷ []),
        length-append index.identities (identity_of q y ∷ []),
      ))

from_records-pushed :
    (keys : List KeyRecord) (index : KeyIndex)
    → from_records keys ≡ ok index
    → push_records keys (record { digests = []; identities = [] }) ≡ ok index
unfolding from_records
from_records-pushed [] index e = absurd (ground arith)
from_records-pushed (r ∷ rs) index e = ground arith

-- Every key of a store is found by its text, whatever other keys there are: the lookup returns its
-- digest in hexadecimal and its own identity, and no index is out of range.
pub lookup_key-known :
    (sha256 : Str → List ℕ) (presented : Str) (before rs : List KeyRecord) (r : KeyRecord)
    (index : KeyIndex)
    → from_records (before ++ (r ∷ rs)) ≡ ok index
    → decode_digest r.key_sha256 ≡ some (sha256 presented)
    → lookup_key sha256 presented index
      ≡ returned (hex_encode (sha256 presented), some (identity_of r (sha256 presented))) tt
unfolding lookup_key
lookup_key-known sha256 presented before rs r index e d =
    let x = sha256 presented in
    let entry =
      push_records-Entry before rs r x (record { digests = []; identities = [] }) index
        (from_records-pushed (before ++ (r ∷ rs)) index e) d refl in
    let m : matching x 0 none index.digests ≡ some (length entry.before) =
      ap (matching x 0 none) entry.digests_split
      ∙ matching-middle x entry.before entry.later 0 none entry.once
      ∙ ap some (omega arith) in
    let i : identity_at index.identities (length entry.before) ≡ some (identity_of r x) =
      ap (λ is. identity_at is (length entry.before)) entry.identities_split
      ∙ identity_at-middle entry.identities_before entry.identities_later (identity_of r x)
          (length entry.before) entry.same_place in
    ground (arith, m, i)

push_records-absent :
    (rs : List KeyRecord) (x : List ℕ) (index after : KeyIndex)
    → All (λ r. decode_digest r.key_sha256 ≢ some x) rs
    → contains x index.digests ≡ false
    → push_records rs index ≡ ok after
    → contains x after.digests ≡ false
unfolding push_records
push_records-absent [] x index after a n e = ground arith
push_records-absent (r ∷ rs) x index after (b, a) n e =
    let (y, found, new, f) = push_records-next r rs index after e in
    push_records-absent rs x (pushed_with r y index) after a
      (absent-append x y index.digests n (λ same. b (found ∙ ap some same))) f

-- And a text whose digest no key of the store has is found nowhere: its digest is returned for the
-- log, with no identity.
pub lookup_key-unknown :
    (sha256 : Str → List ℕ) (presented : Str) (keys : List KeyRecord) (index : KeyIndex)
    → from_records keys ≡ ok index
    → All (λ r. decode_digest r.key_sha256 ≢ some (sha256 presented)) keys
    → lookup_key sha256 presented index ≡ returned (hex_encode (sha256 presented), none) tt
unfolding lookup_key contains
lookup_key-unknown sha256 presented keys index e a =
    let x = sha256 presented in
    let n =
      push_records-absent keys x (record { digests = []; identities = [] }) index a refl
        (from_records-pushed keys index e) in
    let m = matching-none x index.digests 0 none n in ground (arith, m)
