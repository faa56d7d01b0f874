-- ===== src/StorageKeys/DocOwnerKey.antt =====
-- DocOwnerKeyV2, of src/storage/src/doc_key_v2.rs: the owner of a document and the number of the
-- mutation that created it.
use rtstore.Base.{
  ℕ, ◌+◌, ◌<◌, ◌^◌, ◌≡◌, ◌∙◌, Option, some, ◌∷◌, [], ◌++◌, arith, length, length-append, ltb, leb,
  refl, ◌||◌, if◌then◌else◌,
}
use rtstore.Base.Bytes.{Bytes, be, of_be, bytes_eq}
use rtstore.Base.Bytes.BigEndian.{length-be, of_be-be}
use rtstore.Base.Result.{key_codec_error, owner_verify_failed, Result, ok, err}
use rtstore.Crypto.Address.{Db3Address, IsAddress, db3_address_length}
use rtstore.StorageKeys.{returns, slice, ◌>>=◌, slice_past, slice_here, slice_all}

-- "/doc"
abbrev pub doc : Bytes
doc = b'/' ∷ b'd' ∷ b'o' ∷ b'c' ∷ []

pub record DocOwnerKey : Type 0 where
  pub owner : Db3Address
  pub block_id : ℕ
  pub order_id : ℕ
  pub entry_id : ℕ

unfoldable pub encode : DocOwnerKey → Bytes
encode key =
    doc ++ (key.owner.bytes ++ (be 8 key.block_id ++ (be 4 key.order_id ++ be 4 key.entry_id)))

abbrev min_key_total_len : ℕ
min_key_total_len = db3_address_length + 4

-- A panic is `none`: the length is checked for the owner only.
unfoldable pub decode : Bytes → Option (Result DocOwnerKey)
decode data_ = if ltb (length data_) min_key_total_len then some (err key_codec_error) else do
  owner ← slice 4 db3_address_length data_
  block_id ← slice 24 8 data_
  order_id ← slice 32 4 data_
  entry_id ← slice 36 4 data_
  some (
      ok (record {
        owner = record { bytes = owner };
        block_id = of_be block_id;
        order_id = of_be order_id;
        entry_id = of_be entry_id;
      }))

unfoldable pub verify_owner : Db3Address → DocOwnerKey → Result (Unit {0})
verify_owner owner key =
    if bytes_eq owner.bytes key.owner.bytes then ok tt else err owner_verify_failed

-- The numbers fit their fields.
pub record IsDocOwnerKey (key : DocOwnerKey) : Type 0 where
  pub owned : IsAddress key.owner
  pub block_fits : key.block_id < 2 ^ 64
  pub order_fits : key.order_id < 2 ^ 32
  pub entry_fits : key.entry_id < 2 ^ 32

length-encode : (key : DocOwnerKey) → IsDocOwnerKey key → length (encode key) ≡ 40
unfolding encode
length-encode key v = omega (
  arith,
  length-append key.owner.bytes (be 8 key.block_id ++ (be 4 key.order_id ++ be 4 key.entry_id)),
  length-append (be 8 key.block_id) (be 4 key.order_id ++ be 4 key.entry_id),
  length-append (be 4 key.order_id) (be 4 key.entry_id),
  length-be 8 key.block_id,
  length-be 4 key.order_id,
  length-be 4 key.entry_id,
  v.owned.size,
)

module _ (key : DocOwnerKey) (v : IsDocOwnerKey key) where
  abbrev numbers : Bytes
  numbers = be 8 key.block_id ++ (be 4 key.order_id ++ be 4 key.entry_id)

  encode_past : (start n : ℕ) → slice (4 + (20 + start)) n (encode key) ≡ slice start n numbers
  unfolding encode
  encode_past start n =
      slice_past doc (key.owner.bytes ++ numbers) 4 (20 + start) n refl
      ∙ slice_past key.owner.bytes numbers 20 start n v.owned.size

  -- A key reads back, if its numbers fit their fields.
  pub owner_key_reads_back : decode (encode key) ≡ some (ok key)
  unfolding decode encode
  owner_key_reads_back = ground (
    arith,
    length-encode key v,
    slice_past doc (key.owner.bytes ++ numbers) 4 0 20 refl,
    slice_here key.owner.bytes numbers 20 v.owned.size,
    encode_past 0 8,
    slice_here (be 8 key.block_id) (be 4 key.order_id ++ be 4 key.entry_id) 8
        (length-be 8 key.block_id),
    encode_past 8 4,
    slice_past (be 8 key.block_id) (be 4 key.order_id ++ be 4 key.entry_id) 8 0 4
        (length-be 8 key.block_id),
    slice_here (be 4 key.order_id) (be 4 key.entry_id) 4 (length-be 4 key.order_id),
    encode_past 12 4,
    slice_past (be 8 key.block_id) (be 4 key.order_id ++ be 4 key.entry_id) 8 4 4
        (length-be 8 key.block_id),
    slice_past (be 4 key.order_id) (be 4 key.entry_id) 4 0 4 (length-be 4 key.order_id),
    slice_all (be 4 key.entry_id) 4 (length-be 4 key.entry_id),
    of_be-be 8 key.block_id (omega (arith, v.block_fits)),
    of_be-be 4 key.order_id (omega (arith, v.order_fits)),
    of_be-be 4 key.entry_id (omega (arith, v.entry_fits)),
  )

-- Bytes of 24 to 39 are past the check of the length and panic in a slice; shorter ones are refused,
-- and longer ones are decoded.
pub decode_panics_iff :
    (data_ : Bytes) → returns (decode data_) ≡ (ltb (length data_) 24 || leb 40 (length data_))
unfolding decode slice
decode_panics_iff data_ = ground arith
