-- ===== src/Crypto/HexText.antt =====
-- Hexadecimal text as a function: the laws asked of the crate `hex` can be met.
use mathlib.Core.List.{flatten}
use rtstore.Base.{
  Option-cases, inl, inr, zero, suc, ap, length, ℕ, ◌+◌, ◌-◌, ◌*◌, ◌/◌, ◌%◌, ◌<◌, ◌≡◌, refl, ◌&&◌,
  Option, none, some, [], ◌∷◌, arith, ltb, leb, if◌then◌else◌,
}
use rtstore.Base.Bytes.{Bytes}
use rtstore.Crypto.{Hex, IsHex, Sha3, IsSha3, AreBytes}

unfoldable pub digit : ℕ → ℕ
digit n = if ltb n 10 then b'0' + n else b'a' + (n - 10)

undigit : ℕ → Option ℕ
undigit c =
    if leb b'0' c && leb c b'9'
    then some (c - b'0')
    else if leb b'a' c && leb c b'f'
    then some (c - b'a' + 10)
    else none

undigit-digit : (n : ℕ) → n < 16 → undigit (digit n) ≡ some n
unfolding digit undigit
undigit-digit n h = ground arith

unfoldable pub encode : Bytes → Bytes
unfolding digit
encode [] = []
encode (b ∷ bs) = digit (b / 16) ∷ digit (b % 16) ∷ encode bs

pair_up : Option ℕ → Option ℕ → Option Bytes → Option Bytes
pair_up (some hi) (some lo) (some bs) = some ((hi * 16 + lo) ∷ bs)
pair_up _ _ _ = none

unfoldable pub decode : Bytes → Option Bytes
unfolding undigit pair_up
decode [] = some []
decode (c ∷ []) = none
decode (c ∷ d ∷ cs) = pair_up (undigit c) (undigit d) (decode cs)

length-encode : (b : Bytes) → length (encode b) ≡ length b + length b
unfolding encode
length-encode [] = omega arith
length-encode (b ∷ bs) = omega (arith, length-encode bs)

decode-encode : (b : Bytes) → AreBytes b → decode (encode b) ≡ some b
unfolding decode encode
decode-encode [] h = refl
decode-encode (b ∷ bs) h = ground (
  arith,
  undigit-digit (b / 16) (omega arith),
  undigit-digit (b % 16) (omega arith),
  decode-encode bs h.1,
)

length-decode : (b r : Bytes) → decode b ≡ some r → length b ≡ length r + length r
unfolding decode pair_up
length-decode [] r e = ground arith
length-decode (c ∷ []) r e = cc
length-decode (c ∷ d ∷ cs) r e = elim (Option-cases (decode cs)) [
  | inl no_rest ↦ ground arith
  | inr (bs, rest) ↦ ground (arith, length-decode cs bs rest)
]

instance abbrev pub hex_text : Hex
hex_text = record { encode = encode; decode = decode }

pub hex_text-IsHex : IsHex hex_text
hex_text-IsHex = record {
  length_encode = length-encode;
  length_decode = length-decode;
  decode_encode = decode-encode;
}

-- A digest for the tests: the bytes of the pieces, cut or filled up to thirty-two.
unfoldable pub fill : ℕ → Bytes → Bytes
fill zero bs = []
fill (suc n) [] = 0 ∷ fill n []
fill (suc n) (b ∷ bs) = (b % 256) ∷ fill n bs

length-fill : (n : ℕ) (bs : Bytes) → length (fill n bs) ≡ n
unfolding fill
length-fill zero bs = refl
length-fill (suc n) [] = ap suc (length-fill n [])
length-fill (suc n) (b ∷ bs) = ap suc (length-fill n bs)

fill-AreBytes : (n : ℕ) (bs : Bytes) → AreBytes (fill n bs)
unfolding fill
fill-AreBytes zero bs = tt
fill-AreBytes (suc n) [] = (omega arith, fill-AreBytes n [])
fill-AreBytes (suc n) (b ∷ bs) = (omega arith, fill-AreBytes n bs)

instance abbrev pub toy_digest : Sha3
toy_digest = record { digest = λ pieces. fill 32 (flatten pieces) }

pub toy_digest-IsSha3 : IsSha3 toy_digest
toy_digest-IsSha3 = record {
  length_digest = λ m. length-fill 32 (flatten m);
  digest_bytes = λ m. fill-AreBytes 32 (flatten m);
}
