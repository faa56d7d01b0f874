-- ===== src/MutationStore/Mutations.antt =====
-- The methods of MutationStore that number, store and collect mutations.
use rtstore.Base.{ℕ, ◌+◌, ◌%◌, ◌^◌, List, [], ◌∷◌, ◌++◌, length, leb, if◌then◌else◌}
use rtstore.Base.Bytes.{Bytes, be}
use rtstore.Base.Result.{read_store_error, write_store_error, Result, ok_or}
use rtstore.Base.Exec.{Exec, pure, raise, query, lift, modify, ◌>>=◌, ◌>>◌}
use rtstore.Engine.{Op, put_cf, delete_cf, delete_range_cf, Engine, Codec}
use rtstore.Crypto.{Hex, Sha3}
use rtstore.Crypto.Address.{Db3Address}
use rtstore.Crypto.TxId
use rtstore.Proto.{MutationAction, MutationHeader, MutationBody}
use rtstore.MutationStore.{Cf, block_store, tx_store, MutationStore, header_key, add_u64}
use rtstore.MutationStore.Read.{get_range_mutations}
use rtstore.MutationStore.Write.{cf_handle, write, increase_order, set_block_state}

-- The arguments that `add_mutation` and `update_mutation_stat` share; `now` is the time in seconds.
pub record Submission : Type 0 where
  pub payload : Bytes
  pub signature : Bytes
  pub doc_ids_map : Bytes
  pub sender : Db3Address
  pub nonce : ℕ
  pub block : ℕ
  pub order : ℕ
  pub network : ℕ
  pub action : MutationAction
  pub now : ℕ

abbrev pub body_of : Submission → MutationBody
body_of m = record { payload = m.payload; signature = m.signature }

abbrev pub header_of : Submission → Bytes → ℕ → MutationHeader
header_of m hex_id size = record {
  block_id = m.block;
  order_id = m.order;
  sender = m.sender.bytes;
  time = m.now;
  id = hex_id;
  size = size;
  nonce = m.nonce;
  network = m.network;
  action = m.action;
  doc_ids_map = m.doc_ids_map;
}

unfoldable pub encode_mutation_body : ⦃cb : Codec MutationBody⦄ → Submission → Result Bytes
encode_mutation_body ⦃cb⦄ m = ok_or (cb.encode (body_of m)) write_store_error

-- The size is cut to a `u32`.
unfoldable pub encode_mutation_header :
    ⦃ch : Codec MutationHeader⦄ → Submission → Bytes → ℕ → Result Bytes
encode_mutation_header ⦃ch⦄ m hex_id size =
    ok_or (ch.encode (header_of m hex_id (size % 2 ^ 32))) write_store_error

-- The deletes of the bodies: the key is the text of the id.
abbrev pub delete_bodies : List (MutationHeader × MutationBody) → List (Op Cf)
delete_bodies [] = []
delete_bodies ((m, mb) ∷ ms) = delete_cf tx_store m.id ∷ delete_bodies ms

module _ {Db : Type 0} ⦃E : Engine Cf Db⦄ where
  unfoldable pub gc_range_mutation :
      ⦃ch : Codec MutationHeader⦄ ⦃cb : Codec MutationBody⦄ ⦃h : Hex⦄
      → ℕ
      → ℕ
      → Exec (MutationStore Db) (Unit {0})
  gc_range_mutation block_start block_end =
      if leb block_end block_start then raise read_store_error else do
        cf_handle tx_store write_store_error
        mutations ← query (get_range_mutations block_start block_end)
        cf_handle block_store read_store_error
        write (
            delete_bodies mutations
            ++ (delete_range_cf block_store (be 8 block_start) (be 8 block_end) ∷ []))

  module _ ⦃sha : Sha3⦄ ⦃h : Hex⦄ where
    unfoldable pub generate_mutation_block_and_order :
        Bytes → Bytes → Exec (MutationStore Db) (Bytes × ℕ × ℕ)
    unfolding increase_order
    generate_mutation_block_and_order payload signature = do
      (block, order) ← increase_order
      pure (TxId.to_hex (TxId.of_pair payload signature), block, order)

    module _ ⦃ch : Codec MutationHeader⦄ ⦃cb : Codec MutationBody⦄ where
      -- The counters of `add_mutation` and `update_mutation_stat`.
      abbrev pub count_mutation : Bytes → Bytes → Exec (MutationStore Db) (Unit {0})
      count_mutation buf header_buf = modify (λ s. record s {
        mutation_count = add_u64 s.mutation_count 1;
        total_mutation_bytes = add_u64 s.total_mutation_bytes (length buf + length header_buf);
      })

      unfoldable pub add_mutation : Submission → Exec (MutationStore Db) (Bytes × ℕ × ℕ)
      unfolding encode_mutation_body encode_mutation_header
      add_mutation m = do
        let tx_id = TxId.of_pair m.payload m.signature
        buf ← lift (encode_mutation_body m)
        header_buf ← lift (encode_mutation_header m (TxId.to_hex tx_id) (length buf))
        cf_handle tx_store write_store_error
        cf_handle block_store write_store_error
        write (
            put_cf tx_store tx_id.bytes buf
            ∷ put_cf block_store (header_key m.block m.order) header_buf
            ∷ [])
        count_mutation buf header_buf
        pure (TxId.to_hex tx_id, m.block, m.order)

      -- The recovery of a rollup node counts the mutation and sets the block, and stores neither.
      unfoldable pub update_mutation_stat : Submission → Exec (MutationStore Db) (Unit {0})
      unfolding encode_mutation_body encode_mutation_header set_block_state
      update_mutation_stat m = do
        let tx_id = TxId.of_pair m.payload m.signature
        buf ← lift (encode_mutation_body m)
        header_buf ← lift (encode_mutation_header m (TxId.to_hex tx_id) (length buf))
        count_mutation buf header_buf
        set_block_state m.block m.order
