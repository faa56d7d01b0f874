-- ===== src/Mint/Handle.antt =====
-- What a log makes of the stores: the mutation is numbered, applied, and stored if that succeeded. An
-- error of the handlers is dropped.
use rtstore.Base.{ℕ, Option, none, some, List, [], ◌∷◌, if◌then◌else◌}
use rtstore.Base.Bytes.{Bytes, bytes_eq}
use rtstore.Base.Result.{store_event_error, Result, ok, err}
use rtstore.Engine.{Engine, Codec}
use rtstore.Crypto.{Hex, Sha3}
use rtstore.Crypto.Address.{Db3Address}
use rtstore.Proto.{MutationAction, mint_document_db, mint_collection, MutationHeader, MutationBody}
use rtstore.Proto.Database.{Collection, DatabaseMessage, BlockState}
use rtstore.Proto.Mutation.{Body, Mutation, ExtraItem}
use rtstore.MutationStore
use rtstore.MutationStore.Mutations.{Submission, generate_mutation_block_and_order, add_mutation}
use rtstore.StateStore
use rtstore.DbStore
use rtstore.DbStore.{DocStore, Texts}
use rtstore.DbStore.Apply.{apply_mutation}
use rtstore.Node.{StorageNode}
use rtstore.Mint.{Log, Transaction, Registry, Signed, sign_mutation, database_body, collection_body}

abbrev pub minted : ℕ → MutationAction → Db3Address → ℕ → Signed → ℕ → ℕ → Submission
minted now action sender network s block order = record {
  payload = s.payload;
  signature = s.signature;
  doc_ids_map = [];
  sender = sender;
  nonce = s.nonce;
  block = block;
  order = order;
  network = network;
  action = action;
  now = now;
}

module _ {Mdb Sdb Ddb Docs : Type 0} ⦃M : Engine MutationStore.Cf Mdb⦄
    ⦃S : Engine StateStore.Table Sdb⦄ ⦃E : Engine DbStore.Cf Ddb⦄ ⦃D : DocStore Docs⦄ ⦃h : Hex⦄
    ⦃sha : Sha3⦄ ⦃ch : Codec MutationHeader⦄ ⦃cb : Codec MutationBody⦄ ⦃cc : Codec Collection⦄
    ⦃cd : Codec DatabaseMessage⦄ ⦃cs : Codec BlockState⦄ ⦃cm : Codec Mutation⦄ ⦃t : Texts⦄
    ⦃r : Registry⦄ (now network : ℕ) where
  -- An error of `add_mutation` is only logged.
  abbrev store_minted :
      MutationAction
      → Db3Address
      → Signed
      → ℕ
      → ℕ
      → Result (List ExtraItem)
      → StorageNode Mdb Sdb Ddb Docs
      → StorageNode Mdb Sdb Ddb Docs
  store_minted action sender s block order (err e) n = n
  store_minted action sender s block order (ok items) n = record n {
    storage = (add_mutation (minted now action sender network s block order) n.storage).1;
  }

  abbrev numbered :
      MutationAction
      → Db3Address
      → Signed
      → Result (Bytes × ℕ × ℕ)
      → StorageNode Mdb Sdb Ddb Docs
      → Result (Unit {0}) × StorageNode Mdb Sdb Ddb Docs
  numbered action sender s (err e) n = (err store_event_error, n)
  numbered action sender s (ok (id, block, order)) n =
      let (applied, d) =
        apply_mutation action s.mutation sender network s.nonce block order [] n.db_store in
      (ok tt, store_minted action sender s block order applied (record n { db_store = d }))

  -- `apply_mutation` of the processor.
  unfoldable pub apply_minted :
      MutationAction
      → Db3Address
      → Signed
      → StorageNode Mdb Sdb Ddb Docs
      → Result (Unit {0}) × StorageNode Mdb Sdb Ddb Docs
  unfolding generate_mutation_block_and_order apply_mutation add_mutation
  apply_minted action sender s n =
      let (r, storage) = generate_mutation_block_and_order s.payload s.signature n.storage in
      numbered action sender s r (record n { storage = storage })

  abbrev signed_and_applied :
      MutationAction
      → Db3Address
      → Result Signed
      → StorageNode Mdb Sdb Ddb Docs
      → Result (Unit {0}) × StorageNode Mdb Sdb Ddb Docs
  signed_and_applied action sender (err e) n = (err e, n)
  signed_and_applied action sender (ok s) n = apply_minted action sender s n

  -- A log of another network is ignored.
  abbrev handle_body :
      MutationAction
      → Result (Option (Body × Db3Address))
      → StorageNode Mdb Sdb Ddb Docs
      → Result (Unit {0}) × StorageNode Mdb Sdb Ddb Docs
  handle_body action (err e) n = (err e, n)
  handle_body action (ok none) n = (ok tt, n)
  handle_body action (ok (some (body, sender))) n =
      signed_and_applied action sender (sign_mutation n.state_store body action) n

  unfoldable pub handle_create_doc_database :
      Log
      → Transaction
      → StorageNode Mdb Sdb Ddb Docs
      → Result (Unit {0}) × StorageNode Mdb Sdb Ddb Docs
  unfolding database_body sign_mutation apply_minted
  handle_create_doc_database log tx = handle_body mint_document_db (database_body network log tx)

  unfoldable pub handle_create_collection :
      Log
      → Transaction
      → StorageNode Mdb Sdb Ddb Docs
      → Result (Unit {0}) × StorageNode Mdb Sdb Ddb Docs
  unfolding collection_body sign_mutation apply_minted
  handle_create_collection log tx = handle_body mint_collection (collection_body network log tx)

  abbrev dispatch :
      List Bytes → Log → Transaction → StorageNode Mdb Sdb Ddb Docs → StorageNode Mdb Sdb Ddb Docs
  dispatch [] log tx n = n
  dispatch (topic ∷ topics) log tx n =
      if bytes_eq topic r.database_signature
      then (handle_create_doc_database log tx n).1
      else if bytes_eq topic r.collection_signature
      then (handle_create_collection log tx n).1
      else n

  -- A log of the stream, and its transaction if the chain has it.
  unfoldable pub on_log :
      Log → Option Transaction → StorageNode Mdb Sdb Ddb Docs → StorageNode Mdb Sdb Ddb Docs
  unfolding handle_create_doc_database handle_create_collection
  on_log log none n = n
  on_log log (some tx) n = dispatch log.topics log tx n
