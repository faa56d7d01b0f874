-- ===== src/StorageKeys/Tests.antt =====
-- The theorems on keys at concrete keys.
use rtstore.Base.{◌≡◌, refl, ◌&&◌, ◌||◌, some, [], ◌∷◌, ◌++◌, arith, length, ltb, leb, ◌==◌}
use rtstore.Base.Bytes.{Bytes, be, bytes_eq, bytes_lt}
use rtstore.Base.Result.{ok}
use rtstore.Crypto.Address.{Db3Address, IsAddress}
use rtstore.StorageKeys.{returns}
use rtstore.StorageKeys.DocOwnerKey
use rtstore.StorageKeys.DocOwnerKey.{DocOwnerKey, owner_key_reads_back, decode_panics_iff}
use rtstore.StorageKeys.DbDocKey
use rtstore.StorageKeys.DbDocKey.{DbDocKey, encode_reads_back}
use rtstore.StorageKeys.DbOwnerKey
use rtstore.StorageKeys.DbOwnerKey.{DbOwnerKey, key_bytes, encode_order}
use rtstore.StorageKeys.CollectionKey.{build_collection_key, build_collection_key_injective}

abbrev alice : Db3Address
alice = record { bytes = be 20 1 }

alice-IsAddress : IsAddress alice
unfolding be
alice-IsAddress = record { size = refl; are_bytes = ground arith }

abbrev owner_key : DocOwnerKey
owner_key = record { owner = alice; block_id = 300; order_id = 2; entry_id = 3 }

owner_key_reads_back_example :
    DocOwnerKey.decode (DocOwnerKey.encode owner_key) ≡ some (ok owner_key)
owner_key_reads_back_example = owner_key_reads_back owner_key (record {
  owned = alice-IsAddress;
  block_fits = omega arith;
  order_fits = omega arith;
  entry_fits = omega arith;
})

decode_panics_iff_example :
    returns (DocOwnerKey.decode (be 30 0))
    ≡ (ltb (length (be 30 0)) 24 || leb 40 (length (be 30 0)))
decode_panics_iff_example = decode_panics_iff (be 30 0)

abbrev doc_key : DbDocKey
doc_key = record { address = alice; id = 77 }

encode_reads_back_example :
    (DbDocKey.decode_id (DbDocKey.encode doc_key) ≡ some (ok 77))
    × (DbDocKey.is_the_same_db (DbDocKey.encode doc_key) alice
        ≡ some (bytes_eq (be 20 1) (be 20 1)))
encode_reads_back_example = encode_reads_back doc_key alice-IsAddress alice (omega arith)

abbrev first_db : DbOwnerKey
first_db = record { owner = alice; block = 1; order = 9 }

abbrev second_db : DbOwnerKey
second_db = record { owner = alice; block = 2; order = 0 }

encode_order_test : bytes_lt (key_bytes first_db) (key_bytes second_db) ≡ (
    bytes_lt (be 20 1) (be 20 1)
    || (bytes_eq (be 20 1) (be 20 1) && (ltb 1 2 || ((1 == 2) && ltb 9 0))))
unfolding DbOwnerKey.encode
encode_order_test =
    encode_order first_db second_db alice-IsAddress alice-IsAddress (omega arith, omega arith)
      (omega arith, omega arith) (key_bytes first_db) (key_bytes second_db) refl refl

abbrev users : Bytes
users = b'u' ∷ b's' ∷ b'e' ∷ b'r' ∷ []

users_key : build_collection_key alice users ≡ ok (alice.bytes ++ users)
unfolding build_collection_key
users_key = refl

build_collection_key_injective_example : (be 20 1 ≡ be 20 1) × (users ≡ users)
build_collection_key_injective_example =
    build_collection_key_injective alice alice users users (alice.bytes ++ users) alice-IsAddress
      alice-IsAddress users_key users_key
