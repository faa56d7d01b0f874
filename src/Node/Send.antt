-- ===== src/Node/Send.antt =====
-- `send_mutation`: the signature, the action, the nonce, the number, the databases, and at last the
-- mutation itself. A step that fails leaves what the steps before it did.
use rtstore.Base.{ℕ, Option, none, some, List, [], ◌∷◌, ◌==◌, if◌then◌else◌}
use rtstore.Base.Bytes.{Bytes}
use rtstore.Base.Result.{Result, ok, err}
use rtstore.Engine.{Engine, Codec}
use rtstore.Crypto.{Hex, Sha3}
use rtstore.Crypto.Address.{Db3Address}
use rtstore.Proto.{MutationAction, MutationHeader, MutationBody}
use rtstore.Proto.Database.{Collection, DatabaseMessage, BlockState}
use rtstore.Proto.Mutation.{Mutation, ExtraItem, from_i32}
use rtstore.MutationStore
use rtstore.MutationStore.{MutationStore}
use rtstore.MutationStore.Mutations.{Submission, generate_mutation_block_and_order, add_mutation}
use rtstore.StateStore
use rtstore.StateStore.{StateStore}
use rtstore.StateStore.Write.{incr_nonce}
use rtstore.DbStore
use rtstore.DbStore.{DbStore, DocStore, Texts}
use rtstore.DbStore.Apply.{apply_mutation}
use rtstore.Node.{
  Status, invalid_argument, internal, SendMutationRequest, SendMutationResponse, StorageNode,
  Verify, get_create_doc_ids_map,
}

-- A reply is a status or a response.
pub data Reply : Type 0 where
  status : Status → Reply
  response : SendMutationResponse → Reply

-- "bad nonce"
abbrev pub bad_nonce : SendMutationResponse
bad_nonce = record {
  id = [];
  code = 1;
  msg = b'b' ∷ b'a' ∷ b'd' ∷ b' ' ∷ b'n' ∷ b'o' ∷ b'n' ∷ b'c' ∷ b'e' ∷ [];
  items = [];
  block = 0;
  order = 0;
}

-- "ok"
abbrev pub accepted : Bytes → List ExtraItem → ℕ → ℕ → SendMutationResponse
accepted id items block order = record {
  id = id;
  code = 0;
  msg = b'o' ∷ b'k' ∷ [];
  items = items;
  block = block;
  order = order;
}

-- A verified request.
pub record Verified : Type 0 where
  pub request : SendMutationRequest
  pub dm : Mutation
  pub address : Db3Address
  pub nonce : ℕ
  pub action : MutationAction

abbrev pub submission : ⦃u : Verify⦄ → ℕ → Verified → List ExtraItem → ℕ → ℕ → ℕ → Submission
submission now v items network block order = record {
  payload = v.request.payload;
  signature = v.request.signature;
  doc_ids_map = get_create_doc_ids_map items;
  sender = v.address;
  nonce = v.nonce;
  block = block;
  order = order;
  network = network;
  action = v.action;
  now = now;
}

-- `map_err(|e| Status::internal(…))?`
abbrev pub replied : {A : Type 0} → Result A → SendMutationResponse → Reply
replied (ok a) r = response r
replied (err e) r = status internal

module _ {Mdb Sdb Ddb Docs : Type 0} ⦃M : Engine MutationStore.Cf Mdb⦄
    ⦃S : Engine StateStore.Table Sdb⦄ ⦃E : Engine DbStore.Cf Ddb⦄ ⦃D : DocStore Docs⦄ ⦃h : Hex⦄
    ⦃sha : Sha3⦄ ⦃ch : Codec MutationHeader⦄ ⦃cm : Codec MutationBody⦄ ⦃cc : Codec Collection⦄
    ⦃cd : Codec DatabaseMessage⦄ ⦃cb : Codec BlockState⦄ ⦃t : Texts⦄ ⦃u : Verify⦄ (now : ℕ) where
  unfoldable pub store_mutation :
      Verified
      → List ExtraItem
      → Bytes
      → ℕ
      → ℕ
      → StorageNode Mdb Sdb Ddb Docs
      → Reply × StorageNode Mdb Sdb Ddb Docs
  unfolding add_mutation
  store_mutation v items id block order n =
      let (r, storage) = add_mutation (submission now v items n.network_id block order) n.storage in
      (replied r (accepted id items block order), record n { storage = storage })

  unfoldable pub after_apply :
      Verified
      → Bytes
      → ℕ
      → ℕ
      → Result (List ExtraItem)
      → StorageNode Mdb Sdb Ddb Docs
      → Reply × StorageNode Mdb Sdb Ddb Docs
  unfolding store_mutation
  after_apply v id block order (err e) n = (status internal, n)
  after_apply v id block order (ok items) n = store_mutation v items id block order n

  -- A mutation that the client sends brings no ids of documents along.
  unfoldable pub after_number :
      Verified
      → Result (Bytes × ℕ × ℕ)
      → StorageNode Mdb Sdb Ddb Docs
      → Reply × StorageNode Mdb Sdb Ddb Docs
  unfolding apply_mutation after_apply
  after_number v (err e) n = (status internal, n)
  after_number v (ok (id, block, order)) n =
      let (r, d) =
        apply_mutation v.action v.dm v.address n.network_id v.nonce block order [] n.db_store in
      after_apply v id block order r (record n { db_store = d })

  -- Any error of the nonce is answered as a bad nonce.
  unfoldable pub after_nonce :
      Verified → Result ℕ → StorageNode Mdb Sdb Ddb Docs → Reply × StorageNode Mdb Sdb Ddb Docs
  unfolding generate_mutation_block_and_order after_number
  after_nonce v (err e) n = (response bad_nonce, n)
  after_nonce v (ok nonce) n =
      let (r, storage) =
        generate_mutation_block_and_order v.request.payload v.request.signature n.storage in
      after_number v r (record n { storage = storage })

  unfoldable pub after_action :
      SendMutationRequest
      → Mutation × Db3Address × ℕ
      → Option MutationAction
      → StorageNode Mdb Sdb Ddb Docs
      → Reply × StorageNode Mdb Sdb Ddb Docs
  unfolding incr_nonce after_nonce
  after_action r (dm, address, nonce) none n = (status invalid_argument, n)
  after_action r (dm, address, nonce) (some action) n =
      let v : Verified = record {
        request = r;
        dm = dm;
        address = address;
        nonce = nonce;
        action = action;
      } in
      let (granted, store) = incr_nonce address nonce n.state_store in
      after_nonce v granted (record n { state_store = store })

  unfoldable pub after_verify :
      SendMutationRequest
      → Result (Mutation × Db3Address × ℕ)
      → StorageNode Mdb Sdb Ddb Docs
      → Reply × StorageNode Mdb Sdb Ddb Docs
  unfolding from_i32 after_action
  after_verify r (err e) n = (status invalid_argument, n)
  after_verify r (ok (dm, address, nonce)) n =
      after_action r (dm, address, nonce) (from_i32 dm.action) n

  unfoldable pub send_mutation :
      SendMutationRequest → StorageNode Mdb Sdb Ddb Docs → Reply × StorageNode Mdb Sdb Ddb Docs
  unfolding after_verify
  send_mutation r n =
      let result = after_verify r (u.unwrap_and_light_verify r.payload r.signature) n in
      if n.network_id == 0 then (status internal, n) else result
