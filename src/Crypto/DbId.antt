-- ===== src/Crypto/DbId.antt =====
-- DbId, of src/crypto/src/id.rs: the address of a database, from its owner and the nonce.
use rtstore.Base.{zero, suc, List, ℕ, [], ◌∷◌, arith, take, length-take}
use rtstore.Base.Bytes.{Bytes, be}
use rtstore.Crypto.{Hex, Sha3, IsSha3, AreBytes, to_hex_text}
use rtstore.Crypto.Address.{Db3Address, IsAddress, db3_address_length}

pub record DbId : Type 0 where
  pub addr : Db3Address

unfoldable pub to_hex : ⦃h : Hex⦄ → DbId → Bytes
to_hex d = to_hex_text d.addr.bytes

-- `DbId::from((sender, nonce, network))`: the first twenty bytes of the digest.
unfoldable pub of_sender : ⦃s : Sha3⦄ → Db3Address → ℕ → ℕ → DbId
of_sender ⦃s⦄ sender nonce network = record {
  addr = record {
    bytes = take db3_address_length (s.digest (be 8 nonce ∷ be 8 network ∷ sender.bytes ∷ []));
  };
}

AreBytes-take : (n : ℕ) (xs : Bytes) → AreBytes xs → AreBytes (take n xs)
AreBytes-take zero xs h = tt
AreBytes-take (suc n) [] h = tt
AreBytes-take (suc n) (x ∷ xs) h = (h.0, AreBytes-take n xs h.1)

-- Every database id is an address of twenty bytes.
pub of_sender-IsAddress :
    ⦃s : Sha3⦄ (law : IsSha3 s) (sender : Db3Address) (nonce network : ℕ)
    → IsAddress (of_sender sender nonce network).addr
unfolding of_sender
of_sender-IsAddress ⦃s⦄ law sender nonce network =
    let pieces : List Bytes = be 8 nonce ∷ be 8 network ∷ sender.bytes ∷ [] in
    record {
      size = omega (arith, length-take 20 (s.digest pieces), law.length_digest pieces);
      are_bytes = AreBytes-take 20 (s.digest pieces) (law.digest_bytes pieces);
    }
