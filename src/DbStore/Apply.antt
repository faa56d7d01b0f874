-- ===== src/DbStore/Apply.antt =====
-- `DBStoreV2::apply_mutation`: what the node does with a mutation that it has accepted. Some actions
-- act on the first body that is theirs, the others on every body.
use rtstore.Base.{ℕ, suc, Option, none, some, List, [], ◌∷◌, ◌++◌}
use rtstore.Base.Dict.{Dict}
use rtstore.Base.Exec.{Exec, pure, ◌>>=◌, ◌>>◌}
use rtstore.Engine.{Engine, Codec}
use rtstore.Crypto.{Hex, Sha3}
use rtstore.Crypto.Address.{Db3Address}
use rtstore.Proto.{
  MutationAction, create_document_db, add_collection, add_document, delete_document,
  update_document, create_event_db, mint_document_db, mint_collection, delete_event_db,
}
use rtstore.Proto
use rtstore.Proto.Database.{Collection, DatabaseMessage, BlockState}
use rtstore.Proto.Mutation.{BodyWrapper, Mutation, ExtraItem}
use rtstore.DbStore.{Cf, DbStore, DocStore, Texts}
use rtstore.DbStore.Write.{store_block_state}
use rtstore.DbStore.Bodies.{
  delete_event_db_body, add_index_body, mint_collection_body, mint_document_db_body,
  create_event_db_body, create_document_db_body, add_collection_body, add_document_body,
  update_document_body, delete_document_body,
}

module _ {S : Type 0} where
  -- `none` is a body that is not the action's.
  abbrev pub do_or :
      Option (Exec S (List ExtraItem)) → Exec S (List ExtraItem) → Exec S (List ExtraItem)
  do_or none rest = rest
  do_or (some act) rest = act

  -- The first body that is the action's, and no other.
  unfoldable pub on_first :
      (BodyWrapper → Option (Exec S (List ExtraItem))) → List BodyWrapper → Exec S (List ExtraItem)
  on_first f [] = pure []
  on_first f (b ∷ bs) = do_or (f b) (on_first f bs)

  -- The first body, whatever it is.
  unfoldable pub on_head :
      (BodyWrapper → Option (Exec S (List ExtraItem))) → List BodyWrapper → Exec S (List ExtraItem)
  on_head f [] = pure []
  on_head f (b ∷ bs) = do_or (f b) (pure [])

  -- All bodies, with their numbers.
  unfoldable pub on_each :
      (ℕ → BodyWrapper → Exec S (List ExtraItem)) → ℕ → List BodyWrapper → Exec S (List ExtraItem)
  on_each f i [] = pure []
  on_each f i (b ∷ bs) = do items ← f i b; rest ← on_each f (suc i) bs; pure (items ++ rest)

module _ {Db Docs : Type 0} ⦃E : Engine Cf Db⦄ ⦃D : DocStore Docs⦄ ⦃h : Hex⦄ ⦃sha : Sha3⦄
    ⦃cc : Codec Collection⦄ ⦃cd : Codec DatabaseMessage⦄ ⦃t : Texts⦄ where
  unfoldable pub apply_bodies :
      MutationAction
      → List BodyWrapper
      → Db3Address
      → ℕ
      → ℕ
      → ℕ
      → ℕ
      → Dict (List ℕ)
      → Exec (DbStore Db Docs) (List ExtraItem)
  unfolding on_first on_head on_each delete_event_db_body add_index_body mint_collection_body
      mint_document_db_body create_event_db_body create_document_db_body add_collection_body
      add_document_body update_document_body delete_document_body
  apply_bodies delete_event_db bodies address network nonce block order ids =
      on_head (delete_event_db_body address) bodies
  apply_bodies Proto.add_index bodies address network nonce block order ids =
      on_first (add_index_body address) bodies
  apply_bodies mint_collection bodies address network nonce block order ids =
      on_first mint_collection_body bodies
  apply_bodies mint_document_db bodies address network nonce block order ids =
      on_first (mint_document_db_body block order) bodies
  apply_bodies create_event_db bodies address network nonce block order ids =
      on_first (create_event_db_body address nonce network block order) bodies
  apply_bodies create_document_db bodies address network nonce block order ids =
      on_first (create_document_db_body address nonce network block order) bodies
  apply_bodies add_collection bodies address network nonce block order ids =
      on_each (add_collection_body address) 0 bodies
  apply_bodies add_document bodies address network nonce block order ids =
      on_each (add_document_body address ids) 0 bodies
  apply_bodies update_document bodies address network nonce block order ids =
      on_each (update_document_body address) 0 bodies
  apply_bodies delete_document bodies address network nonce block order ids =
      on_each (delete_document_body address) 0 bodies

  -- The number of the mutation is stored after its bodies.
  unfoldable pub apply_mutation :
      ⦃cb : Codec BlockState⦄
      → MutationAction
      → Mutation
      → Db3Address
      → ℕ
      → ℕ
      → ℕ
      → ℕ
      → Dict (List ℕ)
      → Exec (DbStore Db Docs) (List ExtraItem)
  unfolding apply_bodies store_block_state
  apply_mutation action dm address network nonce block order doc_ids_map = do
    items ← apply_bodies action dm.bodies address network nonce block order doc_ids_map
    store_block_state (record { block = block; order = order })
    pure items
