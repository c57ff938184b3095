-- ===== src/Keys/Tests.antt =====
-- Digests and keys as text, and the theorems at concrete ones.
use mistralrs_proxy.Prelude.{
  ℕ, zero, suc, ◌≡◌, refl, ◌↔◌, true, false, some, ◌+◌, ◌++◌, List, [], ◌∷◌, arith, length, All,
  Str, map,
}
use mistralrs_proxy.Keys.{
  identifier_len, secret_len, is_base64_segment, decode_digest, decode_pairs, hex_value, hex_encode,
  identifier_of, drop, starts_char, key_prefix,
}
use mistralrs_proxy.Keys.Shape.{identifier_of-panics_iff}
use mistralrs_proxy.Prelude.Monad.{returned, panicked}
use mistralrs_proxy.Prelude.{Bool}
use mistralrs_proxy.Backend.Slot.{ok}
use mistralrs_proxy.Keys.File.{
  KeyRecord, KeyFile, KeyIndex, any_enabled, any_identifier, any_digest, check_key, check_keys,
  validate, from_records,
}
use mistralrs_proxy.Keys.File.Accepted.{Indexes, from_records-validate}
use mistralrs_proxy.Prelude.{none, ◌≢◌}
use mistralrs_proxy.Keys.File.{identity_of, contains, push_records}
use mistralrs_proxy.Keys.File.Lookup.{lookup_key, lookup_key-known, lookup_key-unknown}
use mistralrs_proxy.Prelude.{Option}
use mistralrs_proxy.Keys.File.{KeyIdentity, eq_ignore_ascii_case}
use mistralrs_proxy.Keys.File.Lookup.{matching, identity_at}
use mistralrs_proxy.Keys.Authenticate.{
  Authentication, bearer, fields_from, check_fields, authenticate, authenticate-ok,
}

abbrev repeat : ℕ → ℕ → List ℕ
repeat zero b = []
repeat (suc n) b = b ∷ repeat n b

-- 32 times 0xab, in both cases.
abbrev bytes_ab : List ℕ
bytes_ab = repeat 32 0xab

abbrev pairs : ℕ → ℕ → ℕ → Str
pairs zero a b = []
pairs (suc n) a b = a ∷ b ∷ pairs n a b

decoded_upper : decode_digest (pairs 32 b'A' b'B') ≡ some bytes_ab
unfolding decode_digest decode_pairs hex_value
decoded_upper = refl

decoded_lower : decode_digest (pairs 32 b'a' b'b') ≡ some bytes_ab
unfolding decode_digest decode_pairs hex_value
decoded_lower = refl

-- An identifier and a secret of underscores.
segments_of_key :
    (is_base64_segment (repeat 8 b'_') identifier_len ≡ true)
    × (is_base64_segment (repeat 32 b'_') secret_len ≡ true)
unfolding is_base64_segment
segments_of_key = (refl, refl)

-- A two-byte character across the end of the identifier.
abbrev split_character : Str
split_character = repeat 7 b'A' ++ (0xc3 ∷ 0xa9 ∷ repeat 32 b'B')

identifier_of-panics_iff_example :
    (identifier_of (key_prefix ++ (b'_' ∷ split_character)) ≡ panicked tt) ↔ (
      (length split_character ≡ identifier_len + 1 + secret_len)
      × (starts_char (drop identifier_len split_character) ≡ false))
identifier_of-panics_iff_example = identifier_of-panics_iff split_character

-- Two keys, one of them disabled.
abbrev record_a : KeyRecord
record_a = record {
  name = b'a' ∷ [];
  identifier = repeat 8 b'A';
  key_sha256 = pairs 32 b'A' b'B';
  admin = true;
  disabled = false;
  created_at_unix_ms = 0;
}

abbrev record_b : KeyRecord
record_b = record record_a {
  identifier = repeat 8 b'B';
  key_sha256 = pairs 32 b'b' b'c';
  disabled = true;
}

abbrev key_file : KeyFile
key_file = record { version = 1; keys = record_a ∷ record_b ∷ [] }

abbrev is_empty : Str → Bool
is_empty [] = true
is_empty (b ∷ bs) = false

key_file_valid : (validate is_empty key_file ≡ ok tt) × (any_enabled key_file.keys ≡ true)
unfolding validate check_keys check_key any_identifier any_digest any_enabled is_base64_segment
    decode_digest decode_pairs hex_value mistralrs_proxy.Prelude.str_eq
key_file_valid = (refl, refl)

from_records-validate_example :
    (index : KeyIndex) × (from_records key_file.keys ≡ ok index)
    × Indexes key_file.keys index.digests index.identities
from_records-validate_example =
    from_records-validate is_empty key_file key_file_valid.0 key_file_valid.1

-- A stand-in for SHA-256: the first byte, 32 times.
abbrev first_byte_32 : Str → List ℕ
first_byte_32 [] = repeat 32 0
first_byte_32 (b ∷ bs) = repeat 32 b

abbrev key_index : KeyIndex
key_index = record {
  digests = bytes_ab ∷ repeat 32 0xbc ∷ [];
  identities = identity_of record_a bytes_ab ∷ identity_of record_b (repeat 32 0xbc) ∷ [];
}

indexed : from_records key_file.keys ≡ ok key_index
unfolding from_records push_records any_enabled contains decode_digest decode_pairs hex_value
    mistralrs_proxy.Prelude.str_eq
indexed = refl

decoded_b : decode_digest record_b.key_sha256 ≡ some (repeat 32 0xbc)
unfolding decode_digest decode_pairs hex_value
decoded_b = refl

lookup_key-known_example :
    lookup_key first_byte_32 (0xbc ∷ []) key_index
    ≡ returned (hex_encode (repeat 32 0xbc), some (identity_of record_b (repeat 32 0xbc))) tt
lookup_key-known_example =
    lookup_key-known first_byte_32 (0xbc ∷ []) (record_a ∷ []) [] record_b key_index indexed
      decoded_b

not_presented : All (λ r. decode_digest r.key_sha256 ≢ some (repeat 32 0)) key_file.keys
unfolding decode_digest decode_pairs hex_value
not_presented = ((λ e. ground arith), ((λ e. ground arith), tt))

lookup_key-unknown_example :
    lookup_key first_byte_32 [] key_index ≡ returned (hex_encode (repeat 32 0), none) tt
lookup_key-unknown_example =
    lookup_key-unknown first_byte_32 [] key_file.keys key_index indexed not_presented

abbrev bearer_header : List ℕ
bearer_header = bearer ++ (32 ∷ 0xab ∷ [])

abbrev let_in : Authentication
let_in = record {
  key_sha256 = some (hex_encode bytes_ab);
  identity = some (identity_of record_a bytes_ab);
  result = ok tt;
}

authenticated : authenticate some first_byte_32 (bearer_header ∷ []) key_index ≡ returned let_in tt
unfolding authenticate check_fields fields_from lookup_key matching identity_at
    mistralrs_proxy.Prelude.str_eq
authenticated = refl

authenticate-ok_example :
    (value : List ℕ) × (text scheme key digest : Str) × (i : KeyIdentity) × (bearer_header ∷ []
      ≡ value ∷ [])
    × (some value ≡ some text)
    × (fields_from [] text ≡ scheme ∷ key ∷ [])
    × (eq_ignore_ascii_case scheme bearer ≡ true)
    × (lookup_key first_byte_32 key key_index ≡ returned (digest, some i) tt)
    × (i.disabled ≡ false)
authenticate-ok_example =
    authenticate-ok some first_byte_32 (bearer_header ∷ []) key_index let_in authenticated refl
