-- ===== src/Mint/Light.antt =====
-- A mutation that the node signs for the chain passes the check that every other node makes.
use rtstore.Base.{ℕ, ◌≡◌, refl, ◌<◌, ◌^◌, none, some, ◌∷◌, arith}
use rtstore.Base.Text.{codes}
use rtstore.Base.Dict
use rtstore.Base.Words.{add_u64}
use rtstore.Base.Bytes.{Bytes, bytes_eq}
use rtstore.Base.Decimal.{decimal}
use rtstore.Base.Digits.{parse_u64-decimal}
use rtstore.Base.Result.{ok}
use rtstore.Engine.{Engine, Codec}
use rtstore.Crypto.{Hex}
use rtstore.Proto.{MutationAction}
use rtstore.Proto.Mutation.{Body, Mutation}
use rtstore.StateStore
use rtstore.StateStore.{StateStore, get_nonce}
use rtstore.Requests.{TypedData, Signing, unwrap_and_light_verify}
use rtstore.Mint.{Registry, Signed, typed_mutation, minting, sign_mutation}

-- What is asked of the signing and the JSON text of typed data: it reads back, and the signature of the
-- node's wallet recovers its address.
pub record Recovers (g : Signing) (r : Registry) (d : TypedData) : Type 0 where
  pub signature : Bytes
  pub text : Bytes
  pub signs : r.sign_typed_data d ≡ some signature
  pub prints : r.to_vec d ≡ some text
  pub reads : g.parse_typed_data text ≡ some d
  pub reads_signature : g.parse_signature signature ≡ some signature
  pub recovers : g.recover_typed_data signature d ≡ some r.wallet_address

-- What is asked of the encoding of a mutation: it reads back.
pub record ReadsBack (c : Codec Mutation) (m : Mutation) : Type 0 where
  pub bytes : Bytes
  pub encodes : c.encode m ≡ some bytes
  pub decodes : c.decode bytes ≡ some m

module _ ⦃h : Hex⦄ ⦃r : Registry⦄ where
  payload_lem :
      (mbuf : Bytes) (nonce : ℕ)
      → Dict.get (codes "payload") (typed_mutation mbuf nonce).message
        ≡ some (record { as_str = some (b'0' ∷ b'x' ∷ h.encode mbuf); as_bytes = some mbuf })
  unfolding typed_mutation Dict.get bytes_eq
  payload_lem mbuf nonce = refl

  nonce_lem :
      (mbuf : Bytes) (nonce : ℕ)
      → Dict.get (codes "nonce") (typed_mutation mbuf nonce).message
        ≡ some (record { as_str = some (decimal nonce); as_bytes = none })
  unfolding typed_mutation Dict.get bytes_eq
  nonce_lem mbuf nonce = refl

module _ ⦃h : Hex⦄ ⦃r : Registry⦄ ⦃g : Signing⦄ ⦃c : Codec Mutation⦄ where
  fields_ok :
      (m : Mutation) (nonce : ℕ) (codec : ReadsBack c m)
      (law : Recovers g r (typed_mutation codec.bytes nonce))
      → nonce < 2 ^ 64
      → unwrap_and_light_verify law.text law.signature
        ≡ ok (m, record { bytes = r.wallet_address }, nonce)
  unfolding unwrap_and_light_verify
  fields_ok m nonce codec law fits = ground (
    arith,
    law.reads,
    law.reads_signature,
    law.recovers,
    codec.decodes,
    parse_u64-decimal nonce fits,
    payload_lem codec.bytes nonce,
    nonce_lem codec.bytes nonce,
  )

module _ ⦃h : Hex⦄ ⦃r : Registry⦄ ⦃g : Signing⦄ {Sdb : Type 0} ⦃S : Engine StateStore.Table Sdb⦄
    ⦃c : Codec Mutation⦄ where
  signs_ok :
      (store : StateStore Sdb) (body : Body) (action : MutationAction) (used : ℕ)
      (codec : ReadsBack c (minting action body))
      (law : Recovers g r (typed_mutation codec.bytes (add_u64 used 1)))
      → get_nonce (record { bytes = r.wallet_address }) store ≡ ok used
      → sign_mutation store body action
        ≡ ok (record {
          signature = law.signature;
          mutation = minting action body;
          nonce = add_u64 used 1;
          payload = law.text;
        })
  unfolding sign_mutation
  signs_ok store body action used codec law known =
      rw (known, codec.encodes, law.signs, law.prints) refl

  -- If the nonce of the node's account reads, and the encodings and the signature read back, the node
  -- can sign a mutation for the chain, and the light check of the signed payload finds the mutation,
  -- the node's address, and the nonce after the account's.
  pub unwrap_and_light_verify-sign_mutation :
      (store : StateStore Sdb) (body : Body) (action : MutationAction) (used : ℕ)
      (codec : ReadsBack c (minting action body))
      → Recovers g r (typed_mutation codec.bytes (add_u64 used 1))
      → get_nonce (record { bytes = r.wallet_address }) store ≡ ok used
      → (s : Signed) × (sign_mutation store body action ≡ ok s)
        × (s.mutation ≡ minting action body)
        × (unwrap_and_light_verify s.payload s.signature
            ≡ ok (minting action body, record { bytes = r.wallet_address }, add_u64 used 1))
  unwrap_and_light_verify-sign_mutation store body action used codec law known =
      let m = minting action body in
      (
        record {
          signature = law.signature;
          mutation = m;
          nonce = add_u64 used 1;
          payload = law.text;
        },
        signs_ok store body action used codec law known,
        refl,
        fields_ok m (add_u64 used 1) codec law (omega arith),
      )
