-- ===== src/Keys/File.antt =====
-- The key file and the index of a key store: `KeyFile::validate` of src/keys.rs, and `KeyIndex` of
-- src/auth.rs. Errors are values in place of their messages. `is_blank` is `trim().is_empty()` of the
-- standard library.
pub mod Accepted
pub mod Lookup
use mistralrs_proxy.Prelude.{
  ℕ, zero, suc, ◌+◌, ◌==◌, not, ◌&&◌, ◌||◌, Bool, true, false, Option, none, some, List, [], ◌∷◌,
  ◌++◌, if◌then◌else◌, Str, str_eq, map,
}
use mistralrs_proxy.Backend.Slot.{Result, ok, err}
use mistralrs_proxy.Keys.{identifier_len, is_base64_segment, decode_digest, hex_encode}
use mistralrs_proxy.Keys.Hex.{to_ascii_lowercase}

abbrev pub schema_version : ℕ
schema_version = 1

pub record KeyRecord : Type 0 where
  pub name : Str
  pub identifier : Str
  pub key_sha256 : Str
  pub admin : Bool
  pub disabled : Bool
  pub created_at_unix_ms : ℕ

pub record KeyFile : Type 0 where
  pub version : ℕ
  pub keys : List KeyRecord

pub data KeyFileError : Type 0 where
  unsupported_version : ℕ → KeyFileError
  empty_name bad_identifier bad_digest : ℕ → KeyFileError
  identifier_twice : Str → KeyFileError
  digest_twice : ℕ → Str → KeyFileError

abbrev pub eq_ignore_ascii_case : Str → Str → Bool
eq_ignore_ascii_case a b = str_eq (map to_ascii_lowercase a) (map to_ascii_lowercase b)

unfoldable pub any_identifier : Str → List KeyRecord → Bool
any_identifier identifier [] = false
any_identifier identifier (k ∷ ks) = str_eq k.identifier identifier || any_identifier identifier ks

unfoldable pub any_digest : Str → List KeyRecord → Bool
any_digest key_sha256 [] = false
any_digest key_sha256 (k ∷ ks) =
    eq_ignore_ascii_case k.key_sha256 key_sha256 || any_digest key_sha256 ks

abbrev is_none {ℓ} : {A : Type ℓ} → Option A → Bool
is_none none = true
is_none (some a) = false

-- The body of the loop, on the keys before this one and its position from 1.
unfoldable pub check_key : (Str → Bool) → List KeyRecord → ℕ → KeyRecord → Option KeyFileError
check_key is_blank earlier position key =
    if is_blank key.name
    then some (empty_name position)
    else if not (is_base64_segment key.identifier identifier_len)
    then some (bad_identifier position)
    else if is_none (decode_digest key.key_sha256)
    then some (bad_digest position)
    else if any_identifier key.identifier earlier
    then some (identifier_twice key.identifier)
    else if any_digest key.key_sha256 earlier
    then some (digest_twice position key.name)
    else none

unfoldable pub check_keys :
    (Str → Bool) → List KeyRecord → ℕ → List KeyRecord → Result (Unit {0}) KeyFileError
check_keys is_blank earlier index [] = ok tt
check_keys is_blank earlier index (key ∷ keys) = elim (check_key is_blank earlier (index + 1) key) [
  | some e ↦ err e
  | none ↦ check_keys is_blank (earlier ++ (key ∷ [])) (index + 1) keys
]

unfoldable pub validate : (Str → Bool) → KeyFile → Result (Unit {0}) KeyFileError
validate is_blank file =
    if not (file.version == schema_version)
    then err (unsupported_version file.version)
    else check_keys is_blank [] 0 file.keys

pub record KeyIdentity : Type 0 where
  pub name : Str
  pub identifier : Str
  pub key_sha256 : Str
  pub admin : Bool
  pub disabled : Bool

pub record KeyIndex : Type 0 where
  pub digests : List (List ℕ)
  pub identities : List KeyIdentity

pub data KeyIndexError : Type 0 where
  empty_database all_disabled shared_digest : KeyIndexError
  malformed_digest : Str → KeyIndexError

unfoldable pub any_enabled : List KeyRecord → Bool
any_enabled [] = false
any_enabled (k ∷ ks) = not k.disabled || any_enabled ks

unfoldable pub contains : List ℕ → List (List ℕ) → Bool
contains digest [] = false
contains digest (d ∷ ds) = str_eq d digest || contains digest ds

abbrev pub identity_of : KeyRecord → List ℕ → KeyIdentity
identity_of r digest = record {
  name = r.name;
  identifier = r.identifier;
  key_sha256 = hex_encode digest;
  admin = r.admin;
  disabled = r.disabled;
}

-- The loop over the records, with the two vectors that it pushes to.
unfoldable pub push_records : List KeyRecord → KeyIndex → Result KeyIndex KeyIndexError
push_records [] index = ok index
push_records (r ∷ rs) index = elim (decode_digest r.key_sha256) [
  | none ↦ err (malformed_digest r.name)
  | some digest ↦
      let pushed = push_records rs (record {
        digests = index.digests ++ (digest ∷ []);
        identities = index.identities ++ (identity_of r digest ∷ []);
      }) in
      if contains digest index.digests then err shared_digest else pushed
]

unfoldable pub from_records : List KeyRecord → Result KeyIndex KeyIndexError
from_records [] = err empty_database
from_records (r ∷ rs) =
    if not (any_enabled (r ∷ rs))
    then err all_disabled
    else push_records (r ∷ rs) (record { digests = []; identities = [] })
