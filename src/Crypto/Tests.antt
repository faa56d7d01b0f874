-- ===== src/Crypto/Tests.antt =====
-- The theorems on identifiers at concrete identifiers.
use rtstore.Base.{◌≡◌, refl, [], ◌∷◌, arith}
use rtstore.Base.Bytes.{be}
use rtstore.Base.Result.{ok}
use rtstore.Crypto.Address
use rtstore.Crypto.Address.{Db3Address, IsAddress, from_hex-to_hex}
use rtstore.Crypto.TxId
use rtstore.Crypto.TxId.{TxId, try_from_hex-to_hex}
use rtstore.Crypto.OpEntryId.{OpEntryId, create, get_block_id, get_order_id, get_idx, create_fields}
use rtstore.Crypto.HexText.{hex_text, hex_text-IsHex, toy_digest, toy_digest-IsSha3}

abbrev alice : Db3Address
alice = record { bytes = be 20 1 }

alice-IsAddress : IsAddress alice
unfolding be
alice-IsAddress = record { size = refl; are_bytes = ground arith }

alice_reads_back : Address.from_hex (Address.to_hex alice) ≡ ok alice
alice_reads_back = from_hex-to_hex hex_text-IsHex alice alice-IsAddress

abbrev tx : TxId
tx = TxId.of_pair (b'a' ∷ []) (b'b' ∷ [])

tx_reads_back : TxId.try_from_hex (TxId.to_hex tx) ≡ ok tx
tx_reads_back =
    try_from_hex-to_hex hex_text-IsHex tx
      (TxId.of_pair-IsTxId toy_digest-IsSha3 (b'a' ∷ []) (b'b' ∷ []))

entry_fields :
    (i : OpEntryId) × (create 5 6 7 ≡ ok i)
    × (get_block_id i ≡ 5)
    × (get_order_id i ≡ 6)
    × (get_idx i ≡ 7)
entry_fields = create_fields 5 6 7 (omega arith) (omega arith) (omega arith)
