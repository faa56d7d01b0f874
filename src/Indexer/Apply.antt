-- ===== src/Indexer/Apply.antt =====
-- `parse_and_apply_mutations`: each mutation of a block is verified and applied, with the ids of its
-- documents; event databases start and end a task.
use rtstore.Base.{Option, none, some, List, [], ◌∷◌, if◌then◌else◌}
use rtstore.Base.Bytes.{Bytes, bytes_eq}
use rtstore.Base.Text.{codes}
use rtstore.Base.Result.{write_store_error, ok, ok_or, map_err}
use rtstore.Base.Exec.{Exec, pure, query, lift, each, ◌>>=◌}
use rtstore.Engine.{Engine, Codec}
use rtstore.Crypto.{Hex, Sha3}
use rtstore.Crypto.Address.{Db3Address, to_hex, from_hex}
use rtstore.Proto.{MutationAction, create_event_db, delete_event_db}
use rtstore.Proto.Database.{Collection, DatabaseMessage, EventDatabase, BlockState}
use rtstore.Proto.Mutation.{Mutation, ExtraItem, from_i32}
use rtstore.DbStore
use rtstore.DbStore.{DbStore, DocStore, Texts}
use rtstore.DbStore.Read.{get_event_db}
use rtstore.DbStore.Lookup.{get_collection_of_database}
use rtstore.DbStore.Apply.{apply_mutation}
use rtstore.Requests.{Signing, unwrap_and_light_verify}
use rtstore.Requests.DocIds.{JsonObjects, convert_doc_ids_map_to_vec}
use rtstore.Indexer.{
  IndexerNode, MutationWrapper, on_db, task_config, start_an_event_task, close_event_task,
}

-- The database that the first item names.
abbrev pub named_database : List ExtraItem → Option Bytes
named_database [] = none
named_database (i ∷ is) = if bytes_eq i.key (codes "db_addr") then some i.value else none

-- A result that is only logged.
abbrev pub ignore : {S : Type 0} → Exec S (Unit {0}) → Exec S (Unit {0})
ignore m s = (ok tt, (m s).1)

module _ {Db Docs : Type 0} ⦃h : Hex⦄ ⦃E : Engine DbStore.Cf Db⦄ ⦃cc : Codec Collection⦄
    ⦃cd : Codec DatabaseMessage⦄ where
  -- `if let Some(database) = …`
  abbrev pub start_found :
      Db3Address → List Collection → Option EventDatabase → Exec (IndexerNode Db Docs) (Unit {0})
  start_found addr collections none = pure tt
  start_found addr collections (some d) =
      ignore (start_an_event_task (task_config (to_hex addr) d collections))

  abbrev pub start_named : Option Bytes → Exec (IndexerNode Db Docs) (Unit {0})
  start_named none = pure tt
  start_named (some text) = do
    addr ← lift (from_hex text)
    (collections, states) ← query (λ x. get_collection_of_database addr x.db_store)
    database ← query (λ x. get_event_db addr x.db_store)
    start_found addr collections database

  abbrev pub close_named : Option Bytes → Exec (IndexerNode Db Docs) (Unit {0})
  close_named none = pure tt
  close_named (some text) = do addr ← lift (from_hex text); close_event_task addr

  unfoldable pub after_mutation :
      MutationAction → List ExtraItem → Exec (IndexerNode Db Docs) (Unit {0})
  unfolding from_hex to_hex get_collection_of_database get_event_db start_an_event_task
      close_event_task
  after_mutation create_event_db items = start_named (named_database items)
  after_mutation delete_event_db items = close_named (named_database items)
  after_mutation _ items = pure tt

  module _ ⦃D : DocStore Docs⦄ ⦃sha : Sha3⦄ ⦃cb : Codec BlockState⦄ ⦃t : Texts⦄ ⦃g : Signing⦄
      ⦃cm : Codec Mutation⦄ ⦃j : JsonObjects⦄ where
    unfoldable pub apply_wrapper : MutationWrapper → Exec (IndexerNode Db Docs) (Unit {0})
    unfolding unwrap_and_light_verify from_i32 convert_doc_ids_map_to_vec apply_mutation
        after_mutation
    apply_wrapper m = do
      (dm, address, nonce) ←
          lift (map_err (unwrap_and_light_verify m.body.payload m.body.signature) write_store_error)
      action ← lift (ok_or (from_i32 dm.action) write_store_error)
      ids ← lift (convert_doc_ids_map_to_vec m.header.doc_ids_map)
      items ← on_db (
          apply_mutation action dm address m.header.network nonce m.header.block_id
            m.header.order_id ids)
      after_mutation action items

    unfoldable pub parse_and_apply_mutations :
        List MutationWrapper → Exec (IndexerNode Db Docs) (Unit {0})
    unfolding apply_wrapper
    parse_and_apply_mutations = each apply_wrapper
