-- ===== src/DbStore/Keeps/Actions.antt =====
-- The bodies of a mutation leave the number of the last mutation alone, whatever its action.
use rtstore.Base.{ℕ, List}
use rtstore.Base.Dict.{Dict}
use rtstore.Engine.{Engine, IsUp, Codec}
use rtstore.Crypto.{Hex, Sha3}
use rtstore.Crypto.Address.{Db3Address}
use rtstore.Proto.{
  MutationAction, create_document_db, add_collection, add_document, delete_document,
  update_document, create_event_db, mint_document_db, mint_collection, delete_event_db,
}
use rtstore.Proto
use rtstore.Proto.Database.{Collection, DatabaseMessage}
use rtstore.Proto.Mutation.{BodyWrapper}
use rtstore.DbStore.{Cf, cf_eq, DocStore, Texts}
use rtstore.DbStore.Bodies.{
  delete_event_db_body, add_index_body, mint_collection_body, mint_document_db_body,
  create_event_db_body, create_document_db_body, add_collection_body, add_document_body,
  update_document_body, delete_document_body,
}
use rtstore.DbStore.Apply.{apply_bodies}
use rtstore.DbStore.Keeps.{KeepsNumber}
use rtstore.DbStore.Keeps.Loops.{on_first-KeepsNumber, on_head-KeepsNumber, on_each-KeepsNumber}
use rtstore.DbStore.Keeps.Bodies.{
  delete_event_db_body-MayKeep, add_index_body-MayKeep, mint_collection_body-MayKeep,
  mint_document_db_body-MayKeep, create_event_db_body-MayKeep, create_document_db_body-MayKeep,
  add_collection_body-KeepsNumber, add_document_body-KeepsNumber, update_document_body-KeepsNumber,
  delete_document_body-KeepsNumber,
}

module _ {Db : Type 0} (Docs : Type 0) ⦃E : Engine Cf Db⦄ ⦃D : DocStore Docs⦄ ⦃h : Hex⦄
    ⦃cc : Codec Collection⦄ ⦃cd : Codec DatabaseMessage⦄ ⦃t : Texts⦄ (up : IsUp E) where
  -- Whatever the action, no body of a mutation writes the number.
  pub apply_bodies-KeepsNumber :
      ⦃sha : Sha3⦄ (action : MutationAction) (bs : List BodyWrapper) (a : Db3Address)
      (network nonce block order : ℕ) (ids : Dict (List ℕ))
      → KeepsNumber up (apply_bodies {Docs = Docs} action bs a network nonce block order ids)
  unfolding apply_bodies
  apply_bodies-KeepsNumber delete_event_db bs a network nonce block order ids =
      on_head-KeepsNumber up (delete_event_db_body a) bs
        λ b. delete_event_db_body-MayKeep Docs up a b.db_address b.body
  apply_bodies-KeepsNumber Proto.add_index bs a network nonce block order ids =
      on_first-KeepsNumber up (add_index_body a) bs
        λ b. add_index_body-MayKeep Docs up a b.db_address b.body
  apply_bodies-KeepsNumber mint_collection bs a network nonce block order ids =
      on_first-KeepsNumber up mint_collection_body bs
        λ b. mint_collection_body-MayKeep Docs up b.db_address b.body
  apply_bodies-KeepsNumber mint_document_db bs a network nonce block order ids =
      on_first-KeepsNumber up (mint_document_db_body block order) bs
        λ b. mint_document_db_body-MayKeep Docs up block order b.db_address b.body
  apply_bodies-KeepsNumber create_event_db bs a network nonce block order ids =
      on_first-KeepsNumber up (create_event_db_body a nonce network block order) bs
        λ b. create_event_db_body-MayKeep Docs up a nonce network block order b.db_address b.body
  apply_bodies-KeepsNumber create_document_db bs a network nonce block order ids =
      on_first-KeepsNumber up (create_document_db_body a nonce network block order) bs
        λ b. create_document_db_body-MayKeep Docs up a nonce network block order b.db_address b.body
  apply_bodies-KeepsNumber add_collection bs a network nonce block order ids =
      on_each-KeepsNumber up (add_collection_body a) 0 bs
        λ i b. add_collection_body-KeepsNumber Docs up a i b.db_address b.body
  apply_bodies-KeepsNumber add_document bs a network nonce block order ids =
      on_each-KeepsNumber up (add_document_body a ids) 0 bs
        λ i b. add_document_body-KeepsNumber Docs up a ids i b.db_address b.body
  apply_bodies-KeepsNumber update_document bs a network nonce block order ids =
      on_each-KeepsNumber up (update_document_body a) 0 bs
        λ i b. update_document_body-KeepsNumber Docs up a i b.db_address b.body
  apply_bodies-KeepsNumber delete_document bs a network nonce block order ids =
      on_each-KeepsNumber up (delete_document_body a) 0 bs
        λ i b. delete_document_body-KeepsNumber Docs up a i b.db_address b.body
