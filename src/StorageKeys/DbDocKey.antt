-- ===== src/StorageKeys/DbDocKey.antt =====
-- DbDocKeyV2, of src/storage/src/db_doc_key_v2.rs: a database and a document id. The id is an `i64`,
-- here the number of its 64 bits.
use rtstore.Base.{
  ℕ, ◌+◌, ◌<◌, ◌^◌, ◌≡◌, ◌∙◌, refl, Bool, Option, some, ◌∷◌, [], ◌++◌, arith, length, length-append,
  ◌==◌, if◌then◌else◌,
}
use rtstore.Base.Bytes.{Bytes, be, of_be, bytes_eq}
use rtstore.Base.Bytes.BigEndian.{length-be, of_be-be}
use rtstore.Base.Result.{key_codec_error, Result, ok, err}
use rtstore.Crypto.Address.{Db3Address, IsAddress, db3_address_length}
use rtstore.StorageKeys.{slice, ◌>>=◌, slice_past, slice_here, slice_all}

-- "/doc/"
abbrev pub doc_prefix : Bytes
doc_prefix = b'/' ∷ b'd' ∷ b'o' ∷ b'c' ∷ b'/' ∷ []

abbrev pub key_length : ℕ
key_length = 5 + db3_address_length + 8

pub record DbDocKey : Type 0 where
  pub address : Db3Address
  pub id : ℕ

unfoldable pub encode : DbDocKey → Bytes
encode key = doc_prefix ++ (key.address.bytes ++ be 8 key.id)

unfoldable pub build_prefix : Db3Address → Bytes
build_prefix address = doc_prefix ++ address.bytes

-- A panic is `none`.
unfoldable pub decode_id : Bytes → Option (Result ℕ)
decode_id key =
    if length key == key_length
    then (do id ← slice 25 8 key; some (ok (of_be id)))
    else some (err key_codec_error)

unfoldable pub is_the_same_db : Bytes → Db3Address → Option Bool
is_the_same_db key address = do
  data_ ← slice 5 db3_address_length key
  some (bytes_eq data_ address.bytes)

module _ (key : DbDocKey) (v : IsAddress key.address) where
  encode_id : slice 25 8 (encode key) ≡ some (be 8 key.id)
  unfolding encode
  encode_id =
      slice_past doc_prefix (key.address.bytes ++ be 8 key.id) 5 20 8 refl
      ∙ slice_past key.address.bytes (be 8 key.id) 20 0 8 v.size
      ∙ slice_all (be 8 key.id) 8 (length-be 8 key.id)

  encode_address : slice 5 20 (encode key) ≡ some key.address.bytes
  unfolding encode
  encode_address =
      slice_past doc_prefix (key.address.bytes ++ be 8 key.id) 5 0 20 refl
      ∙ slice_here key.address.bytes (be 8 key.id) 20 v.size

  length-encode : length (encode key) ≡ 33
  unfolding encode
  length-encode =
      omega (arith, length-append key.address.bytes (be 8 key.id), length-be 8 key.id, v.size)

  -- Under a key that was encoded, the id reads back if it fits 64 bits, and a database is found to be
  -- the key's exactly if it has the key's address.
  pub encode_reads_back :
      (b : Db3Address)
      → key.id < 2 ^ 64
      → (decode_id (encode key) ≡ some (ok key.id))
        × (is_the_same_db (encode key) b ≡ some (bytes_eq key.address.bytes b.bytes))
  unfolding decode_id is_the_same_db
  encode_reads_back b fits = (
    ground (arith, length-encode, encode_id, of_be-be 8 key.id (omega (arith, fits))),
    ground (arith, encode_address),
  )
