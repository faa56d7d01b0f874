-- ===== src/Node/Replays.antt =====
-- A request that is sent again.
use rtstore.Base.{ℕ, ◌+◌, ◌<◌, ◌^◌, ◌≡◌, refl, inl, inr, false, some, [], arith, ◌==◌}
use rtstore.Base.Bytes.Order.{bytes_eq_refl}
use rtstore.Base.Result.{Db3Error, write_store_error, Result, ok, err, Result-cases}
use rtstore.Engine.{Engine, IsUp, Codec}
use rtstore.Crypto.{Hex, Sha3}
use rtstore.Crypto.Address.{Db3Address}
use rtstore.Proto.{MutationAction, MutationHeader, MutationBody}
use rtstore.Proto.Database.{Collection, DatabaseMessage, BlockState}
use rtstore.Proto.Mutation.{Mutation, from_i32}
use rtstore.MutationStore
use rtstore.Base.Words.{add_u32}
use rtstore.MutationStore.Write.{increase_order}
use rtstore.MutationStore.Mutations.{generate_mutation_block_and_order}
use rtstore.StateStore
use rtstore.StateStore.{StateStore, table_eq}
use rtstore.StateStore.Write.{incr_nonce}
use rtstore.StateStore.Nonces.{IsAt, next_level, incremented-IsAt, incr_nonce_answers}
use rtstore.DbStore
use rtstore.DbStore.{DocStore, Texts}
use rtstore.DbStore.Apply.{apply_mutation}
use rtstore.Node.{SendMutationRequest, StorageNode, Verify}
use rtstore.Node.Send.{
  response, bad_nonce, Verified, store_mutation, after_apply, after_number, after_nonce,
  after_action, after_verify, send_mutation,
}

module _ {Mdb Sdb Ddb Docs : Type 0} ⦃M : Engine MutationStore.Cf Mdb⦄
    ⦃S : Engine StateStore.Table Sdb⦄ ⦃E : Engine DbStore.Cf Ddb⦄ ⦃D : DocStore Docs⦄ ⦃h : Hex⦄
    ⦃sha : Sha3⦄ ⦃ch : Codec MutationHeader⦄ ⦃cm : Codec MutationBody⦄ ⦃cc : Codec Collection⦄
    ⦃cd : Codec DatabaseMessage⦄ ⦃cb : Codec BlockState⦄ ⦃t : Texts⦄ ⦃u : Verify⦄ (now : ℕ) where
  -- After the nonce, neither the nonces nor the network change.
  after_nonce-keeps :
      (v : Verified) (r : Result ℕ) (n : StorageNode Mdb Sdb Ddb Docs)
      → ((after_nonce now v r n).1.state_store ≡ n.state_store)
        × ((after_nonce now v r n).1.network_id ≡ n.network_id)
  unfolding after_nonce after_number after_apply store_mutation generate_mutation_block_and_order
      increase_order
  after_nonce-keeps v (err x) n = (refl, refl)
  after_nonce-keeps v (ok k) n =
      let run =
        apply_mutation v.action v.dm v.address n.network_id v.nonce n.storage.blocks.block
          (add_u32 n.storage.blocks.order 1) [] n.db_store in
      elim (Result-cases run.0) [
        | inl (x, bad) ↦ rw bad (refl, refl)
        | inr (items, done) ↦ rw done (refl, refl)
      ]

  send_mutation-refuses :
      (r : SendMutationRequest) (n : StorageNode Mdb Sdb Ddb Docs) (dm : Mutation) (a : Db3Address)
      (nonce : ℕ) (action : MutationAction) (x : Db3Error)
      → (n.network_id == 0) ≡ false
      → u.unwrap_and_light_verify r.payload r.signature ≡ ok (dm, a, nonce)
      → from_i32 dm.action ≡ some action
      → (incr_nonce a nonce n.state_store).0 ≡ err x
      → (send_mutation now r n).0 ≡ response bad_nonce
  unfolding send_mutation after_verify after_action after_nonce
  send_mutation-refuses r n dm a nonce action x set good known bad =
      rw set (rw good (rw known (rw bad refl)))

  send_mutation-keeps :
      (r : SendMutationRequest) (n : StorageNode Mdb Sdb Ddb Docs) (dm : Mutation) (a : Db3Address)
      (nonce : ℕ) (action : MutationAction)
      → (n.network_id == 0) ≡ false
      → u.unwrap_and_light_verify r.payload r.signature ≡ ok (dm, a, nonce)
      → from_i32 dm.action ≡ some action
      → ((send_mutation now r n).1.state_store ≡ (incr_nonce a nonce n.state_store).1)
        × ((send_mutation now r n).1.network_id ≡ n.network_id)
  unfolding send_mutation after_verify after_action
  send_mutation-keeps r n dm a nonce action set good known =
      let v : Verified = record {
        request = r;
        dm = dm;
        address = a;
        nonce = nonce;
        action = action;
      } in
      let (granted, store) = incr_nonce a nonce n.state_store in
      rw set (rw good (rw known (after_nonce-keeps v granted (record n { state_store = store }))))

module _ {Mdb Sdb Ddb Docs : Type 0} ⦃M : Engine MutationStore.Cf Mdb⦄
    ⦃S : Engine StateStore.Table Sdb⦄ ⦃E : Engine DbStore.Cf Ddb⦄ ⦃D : DocStore Docs⦄ ⦃h : Hex⦄
    ⦃sha : Sha3⦄ ⦃ch : Codec MutationHeader⦄ ⦃cm : Codec MutationBody⦄ ⦃cc : Codec Collection⦄
    ⦃cd : Codec DatabaseMessage⦄ ⦃cb : Codec BlockState⦄ ⦃t : Texts⦄ ⦃u : Verify⦄ where
  -- A request is granted at most once: if the node is set up, that is, its network is not 0, the engine
  -- of the nonces is up, the signature is good and the action known, then after a request was sent, whatever its first reply, the same request sent
  -- again, at any later time, is answered as a bad nonce. The sender is at some nonce below 2 ^ 64 - 2.
  pub send_mutation_again :
      (up : IsUp S) (now later : ℕ) (r : SendMutationRequest) (n : StorageNode Mdb Sdb Ddb Docs)
      (dm : Mutation) (a : Db3Address) (nonce : ℕ) (action : MutationAction) (k : ℕ)
      → (n.network_id == 0) ≡ false
      → u.unwrap_and_light_verify r.payload r.signature ≡ ok (dm, a, nonce)
      → from_i32 dm.action ≡ some action
      → IsAt up n.state_store a k
      → k + 2 < 2 ^ 64
      → (send_mutation later r (send_mutation now r n).1).0 ≡ response bad_nonce
  unfolding next_level
  send_mutation_again up now later r n dm a nonce action k set good known at fits =
      let (same, network) = send_mutation-keeps now r n dm a nonce action set good known in
      let n1 = (send_mutation now r n).1 in
      let level = next_level up a k nonce a k in
      let at1 : IsAt up n1.state_store a level =
        rw same (incremented-IsAt up n.state_store a a k nonce k at at (omega arith)) in
      let answers = incr_nonce_answers up n1.state_store a level nonce at1 (ground (arith, fits)) in
      send_mutation-refuses later r n1 dm a nonce action write_store_error
        (ground (arith, set, network)) good known (ground (arith, answers, bytes_eq_refl a.bytes))
