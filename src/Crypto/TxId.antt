-- ===== src/Crypto/TxId.antt =====
-- TxId, of src/crypto/src/id.rs: the digest of a mutation's payload and signature.
use rtstore.Base.{
  Option-cases, inl, inr, ◌≢◌, ◌≤◌, ◌+◌, [], ◌∷◌, ℕ, ◌≡◌, [], ◌∷◌, arith, length, ◌==◌,
  if◌then◌else◌,
}
use rtstore.Base.Bytes.{Bytes}
use rtstore.Base.Result.{invalid_address, key_codec_error, Result, ok, err, ok_or, ◌>>=◌}
use rtstore.Crypto.{Hex, IsHex, Sha3, IsSha3, AreBytes, to_hex_text}
use rtstore.Crypto.Address.{strip_hex_prefix}

abbrev pub tx_id_length : ℕ
tx_id_length = 32

pub record TxId : Type 0 where
  pub bytes : Bytes

pub record IsTxId (t : TxId) : Type 0 where
  pub size : length t.bytes ≡ tx_id_length
  pub are_bytes : AreBytes t.bytes

unfoldable pub try_from_bytes : Bytes → Result TxId
try_from_bytes b =
    if length b == tx_id_length then ok (record { bytes = b }) else err invalid_address

module _ ⦃h : Hex⦄ where
  unfoldable pub to_hex : TxId → Bytes
  to_hex t = to_hex_text t.bytes

  unfoldable pub try_from_hex : Bytes → Result TxId
  unfolding try_from_bytes
  try_from_hex input = do
    bytes ← ok_or (h.decode (strip_hex_prefix input)) key_codec_error
    try_from_bytes bytes

length-strip : (input : Bytes) → length input ≤ length (strip_hex_prefix input) + 2
length-strip [] = omega arith
length-strip (a ∷ []) = omega arith
length-strip (a ∷ b ∷ rest) = ground arith

-- `TxId::from((payload, signature))`
unfoldable pub of_pair : ⦃s : Sha3⦄ → Bytes → Bytes → TxId
of_pair ⦃s⦄ payload signature = record { bytes = s.digest (payload ∷ signature ∷ []) }

pub of_pair-IsTxId :
    ⦃s : Sha3⦄ (law : IsSha3 s) (payload signature : Bytes) → IsTxId (of_pair payload signature)
unfolding of_pair
of_pair-IsTxId law payload signature = record {
  size = law.length_digest _;
  are_bytes = law.digest_bytes _;
}

-- The text of an id of thirty-two bytes reads back as the id, if `hex` decodes what it encodes.
pub try_from_hex-to_hex :
    ⦃h : Hex⦄ (law : IsHex h) (t : TxId) → IsTxId t → try_from_hex (to_hex t) ≡ ok t
unfolding try_from_hex to_hex
try_from_hex-to_hex law t v = ground (arith, law.decode_encode t.bytes v.are_bytes, v.size)

-- The text of an id is never the bytes of an id: it has 66 characters, and ids have 32 bytes.
pub length-to_hex : ⦃h : Hex⦄ (law : IsHex h) (t : TxId) → IsTxId t → length (to_hex t) ≡ 66
unfolding to_hex
length-to_hex law t v = omega (arith, law.length_encode t.bytes, v.size)

-- What is accepted as the text of an id is no id: it has 64 or 66 characters.
pub try_from_hex-ne-id :
    ⦃h : Hex⦄ (law : IsHex h) (input : Bytes) {t : TxId}
    → try_from_hex input ≡ ok t
    → length input ≢ 32
unfolding try_from_hex
try_from_hex-ne-id ⦃h⦄ law input {t} e l = elim (Option-cases (h.decode (strip_hex_prefix input))) [
  | inl bad ↦ ground arith
  | inr (bytes, good) ↦
      ground (arith, law.length_decode (strip_hex_prefix input) bytes good, length-strip input)
]
