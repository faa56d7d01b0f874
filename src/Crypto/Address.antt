-- ===== src/Crypto/Address.antt =====
-- DB3Address, of src/crypto/src/db3_address.rs.
use rtstore.Base.{ℕ, ◌≡◌, ◌&&◌, ◌∷◌, arith, length, ◌==◌, if◌then◌else◌}
use rtstore.Base.Bytes.{Bytes}
use rtstore.Base.Result.{invalid_address, key_codec_error, Result, ok, err, ok_or, ◌>>=◌}
use rtstore.Crypto.{Hex, IsHex, AreBytes, to_hex_text}

abbrev pub db3_address_length : ℕ
db3_address_length = 20

pub record Db3Address : Type 0 where
  pub bytes : Bytes

-- An address has twenty bytes: Rust's array type.
pub record IsAddress (a : Db3Address) : Type 0 where
  pub size : length a.bytes ≡ db3_address_length
  pub are_bytes : AreBytes a.bytes

-- `TryFrom<&[u8]>` and `TryFrom<Vec<u8>>`: the array conversion fails on another length.
unfoldable pub try_from : Bytes → Result Db3Address
try_from bytes =
    if length bytes == db3_address_length
    then ok (record { bytes = bytes })
    else err invalid_address

-- `input.starts_with("0x")` and `&input[2..]`.
abbrev pub strip_hex_prefix : Bytes → Bytes
strip_hex_prefix (a ∷ b ∷ rest) = if (a == b'0') && (b == b'x') then rest else a ∷ b ∷ rest
strip_hex_prefix input = input

module _ ⦃h : Hex⦄ where
  unfoldable pub to_hex : Db3Address → Bytes
  to_hex a = to_hex_text a.bytes

  unfoldable pub from_hex : Bytes → Result Db3Address
  unfolding try_from
  from_hex input = do
    bytes ← ok_or (h.decode (strip_hex_prefix input)) key_codec_error
    try_from bytes

-- Whatever comes in, an accepted address has twenty bytes, and is the input.
pub try_from_accepts :
    (b : Bytes) {a : Db3Address}
    → try_from b ≡ ok a
    → (a.bytes ≡ b) × (length b ≡ db3_address_length)
unfolding try_from
try_from_accepts b h = ground arith

-- The text of an address of twenty bytes reads back as the address, if `hex` decodes what it encodes.
pub from_hex-to_hex :
    ⦃h : Hex⦄ (law : IsHex h) (a : Db3Address) → IsAddress a → from_hex (to_hex a) ≡ ok a
unfolding from_hex to_hex
from_hex-to_hex law a v = ground (arith, law.decode_encode a.bytes v.are_bytes, v.size)
