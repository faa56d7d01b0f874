-- ===== src/Crypto.antt =====
-- The identifiers of src/crypto/src: addresses, transaction ids, database ids and operation ids.
-- `hex` and `Sha3_256` are other packages: their functions are parameters.
pub mod Address
pub mod TxId
pub mod DbId
pub mod OpEntryId
pub mod HexText
mod Tests
use rtstore.Base.{ℕ, ◌+◌, ◌*◌, ◌<◌, ◌≡◌, Option, some, List, [], ◌∷◌, ◌++◌, length, All}
use rtstore.Base.Bytes.{Bytes}

abbrev pub AreBytes : Bytes → Type 0
AreBytes = All (λ b. b < 256)

-- The crate `hex`.
pub record Hex : Type 0 where
  pub encode : Bytes → Bytes
  pub decode : Bytes → Option Bytes

-- Two digits a byte, and they read back; a text of another length is refused.
pub record IsHex (h : Hex) : Type 0 where
  pub length_encode : (b : Bytes) → length (h.encode b) ≡ length b + length b
  pub length_decode : (b r : Bytes) → h.decode b ≡ some r → length b ≡ length r + length r
  pub decode_encode : (b : Bytes) → AreBytes b → h.decode (h.encode b) ≡ some b

-- `Sha3_256`: `update` takes the message piece by piece, `finalize` gives the digest.
pub record Sha3 : Type 0 where
  pub digest : List Bytes → Bytes

pub record IsSha3 (s : Sha3) : Type 0 where
  pub length_digest : (m : List Bytes) → length (s.digest m) ≡ 32
  pub digest_bytes : (m : List Bytes) → AreBytes (s.digest m)

-- The prefix "0x".
abbrev pub hex_prefix : Bytes
hex_prefix = b'0' ∷ b'x' ∷ []

-- `format!("0x{}", hex::encode(data))`
abbrev pub to_hex_text : ⦃h : Hex⦄ → Bytes → Bytes
to_hex_text ⦃h⦄ data_ = hex_prefix ++ h.encode data_
