-- ===== src/StorageKeys/DbOwnerKey.antt =====
-- DbOwnerKey, of src/storage/src/db_owner_key_v2.rs: the owner of a database and the number of the
-- mutation that created it.
use rtstore.Base.{ℕ, ◌<◌, ◌^◌, ◌≡◌, sym, ◌∙◌, ◌&&◌, ◌||◌, ◌++◌, arith, ltb, ◌==◌}
use rtstore.Base.Bytes.{Bytes, be, bytes_eq, bytes_lt}
use rtstore.Base.Bytes.BigEndian.{length-be, bytes_eq-be, bytes_lt-be}
use rtstore.Base.Bytes.Order.{bytes_lt-append}
use rtstore.Base.Result.{Result, ok}
use rtstore.Crypto.Address.{Db3Address, IsAddress}

pub record DbOwnerKey : Type 0 where
  pub owner : Db3Address
  pub block : ℕ
  pub order : ℕ

-- The bytes of a key.
abbrev pub key_bytes : DbOwnerKey → Bytes
key_bytes key = key.owner.bytes ++ (be 8 key.block ++ be 4 key.order)

unfoldable pub encode : DbOwnerKey → Result Bytes
encode key = ok (key_bytes key)

-- The encoding succeeds, and the encoded keys are ordered by owner, then by block, then by order, if
-- the numbers fit their fields.
pub encode_order :
    (j k : DbOwnerKey)
    → IsAddress j.owner
    → IsAddress k.owner
    → (j.block < 2 ^ 64) × (j.order < 2 ^ 32)
    → (k.block < 2 ^ 64) × (k.order < 2 ^ 32)
    → (a b : Bytes) → encode j ≡ ok a
    → encode k ≡ ok b
    → bytes_lt a b ≡ (
        bytes_lt j.owner.bytes k.owner.bytes
        || (bytes_eq j.owner.bytes k.owner.bytes
            && (ltb j.block k.block || ((j.block == k.block) && ltb j.order k.order))))
unfolding encode
encode_order j k v w fits fits' a b e g = ground (
  arith,
  e,
  g,
  bytes_lt-append j.owner.bytes k.owner.bytes (be 8 j.block ++ be 4 j.order)
      (be 8 k.block ++ be 4 k.order) (v.size ∙ sym w.size),
  bytes_lt-append (be 8 j.block) (be 8 k.block) (be 4 j.order) (be 4 k.order)
      (length-be 8 j.block ∙ sym (length-be 8 k.block)),
  bytes_eq-be 8 j.block k.block (omega (arith, fits)) (omega (arith, fits')),
  bytes_lt-be 8 j.block k.block (omega (arith, fits)) (omega (arith, fits')),
  bytes_lt-be 4 j.order k.order (omega (arith, fits)) (omega (arith, fits')),
)
