-- ===== src/Requests.antt =====
-- MutationUtil, of src/node/src/mutation_utils.rs: how the node reads signed requests.
-- The typed data (EIP-712), signatures and JSON values are other packages': the interface `Signing`.
pub mod Fields
pub mod DocIds
use rtstore.Base.{ℕ, Option, none, some}
use rtstore.Base.Bytes.{Bytes}
use rtstore.Base.Dict
use rtstore.Base.Dict.{Dict}
use rtstore.Base.Text.{codes}
use rtstore.Base.Numerals.{parse_u64}
use rtstore.Base.Result.{apply_mutation_error, Result, ok, err, ok_or, ◌>>=◌}
use rtstore.Engine.{Codec}
use rtstore.Crypto.Address.{Db3Address}
use rtstore.Proto.Mutation.{Mutation}

-- A value of a JSON object, by what the code asks of it: whether it is a text, and whether it is the
-- hexadecimal text of bytes.
pub record Value : Type 0 where
  pub as_str : Option Bytes
  pub as_bytes : Option Bytes

-- The fields of the message; the types and the domain are signed too, and not read.
pub record TypedData : Type 0 where
  pub message : Dict Value
  pub types_and_domain : Bytes

-- `recover_typed_data` finds the address that signed.
pub record Signing : Type 0 where
  pub parse_typed_data : Bytes → Option TypedData
  pub parse_signature : Bytes → Option Bytes
  pub recover_typed_data : Bytes → TypedData → Option Bytes

module _ ⦃g : Signing⦄ where
  unfoldable pub verify_setup : Bytes → Bytes → Result (Bytes × TypedData)
  verify_setup payload sig = do
    typed ← ok_or (g.parse_typed_data payload) apply_mutation_error
    signature ← ok_or (g.parse_signature sig) apply_mutation_error
    address ← ok_or (g.recover_typed_data signature typed) apply_mutation_error
    ok (address, typed)

  unfoldable pub unwrap_fields :
      ⦃c : Codec Mutation⦄
      → TypedData
      → Bytes
      → Option Value
      → Option Value
      → Result (Mutation × Db3Address × ℕ)
  unwrap_fields ⦃c⦄ typed signature (some payload) (some nonce) = do
    address ← ok_or (g.recover_typed_data signature typed) apply_mutation_error
    bytes ← ok_or (payload.as_bytes) apply_mutation_error
    dm ← ok_or (c.decode bytes) apply_mutation_error
    text ← ok_or (nonce.as_str) apply_mutation_error
    real_nonce ← ok_or (parse_u64 text) apply_mutation_error
    ok (dm, record { bytes = address }, real_nonce)
  unwrap_fields typed signature _ _ = err apply_mutation_error

  unfoldable pub unwrap_and_light_verify :
      ⦃c : Codec Mutation⦄ → Bytes → Bytes → Result (Mutation × Db3Address × ℕ)
  unfolding Dict.get unwrap_fields
  unwrap_and_light_verify payload sig = do
    typed ← ok_or (g.parse_typed_data payload) apply_mutation_error
    signature ← ok_or (g.parse_signature sig) apply_mutation_error
    unwrap_fields typed signature (Dict.get (codes "payload") typed.message)
        (Dict.get (codes "nonce") typed.message)
