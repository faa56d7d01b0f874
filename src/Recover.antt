-- ===== src/Recover.antt =====
-- Recover, of src/node/src/recover.rs: a node replays the rollups that the archive keeps.
-- The archive, the contract, the decoding of batches, the checks of signatures and the database store
-- are the interface `Replay`; the clock is an argument. The two loops that follow the archive run on
-- fuel, and `none` is a run that needs more.
pub mod Fetch
mod Tests
use rtstore.Base.{
  ℕ, zero, suc, ◌+◌, Bool, true, false, Option, none, some, List, [], ◌∷◌, reverse, ltb,
  if◌then◌else◌,
}
use rtstore.Base.Bytes.{Bytes}
use rtstore.Base.Result.{write_store_error, Result, ok, err, ok_or, map_err}
use rtstore.Base.Exec.{Exec, each, pure, query, lift, ◌>>=◌, ◌>>◌}
use rtstore.Engine.{Engine, Codec}
use rtstore.Crypto.{Hex, Sha3}
use rtstore.Crypto.Address.{Db3Address}
use rtstore.Proto.{MutationAction, MutationHeader, MutationBody, MutationState}
use rtstore.MutationStore.{Cf, MutationStore, add_u64}
use rtstore.MutationStore.Write.{recover}
use rtstore.MutationStore.Mutations.{Submission, update_mutation_stat}

-- The tags of a transaction of the archive; `last_rollup_tx` is the rollup before it.
pub record Tags : Type 0 where
  pub start_block : ℕ
  pub end_block : ℕ
  pub last_rollup_tx : Option Bytes
  pub version : Option Bytes

-- What `fetch_arweave_tx_from_block` returns for a transaction.
pub record Fetched : Type 0 where
  pub tx : Bytes
  pub end_block : ℕ
  pub version : Option Bytes

pub record Archive : Type 0 where
  pub get_latest_arweave_tx : ℕ → Result Bytes
  pub get_tx_tags : Bytes → Result Tags

-- A row of a batch.
pub record Row : Type 0 where
  pub body : MutationBody
  pub block : ℕ
  pub order : ℕ
  pub doc_ids : Bytes

pub record Replay (DbStore Batch Mutation Ids : Type 0) : Type 0 where
  pub download_and_parse_record_batch : Bytes → Result (List Batch)
  pub convert_recordbatch_to_mutation : Batch → Option Bytes → Result (List Row)
  pub unwrap_and_light_verify : Bytes → Bytes → Result (Mutation × Db3Address × ℕ)
  pub action_from_i32 : Mutation → Option MutationAction
  pub convert_doc_ids_map_to_vec : Bytes → Result Ids
  pub apply_mutation :
      MutationAction → Mutation → Db3Address → ℕ → ℕ → ℕ → ℕ → Ids → Exec DbStore (Unit {0})
  pub recover_db_state : Exec DbStore (Unit {0})
  pub recover_block_state : Exec DbStore (Option (ℕ × ℕ))

-- What of a `Recover` never changes.
pub record RecoverConfig : Type 0 where
  pub is_recover_rollup : Bool
  pub network_id : ℕ

pub record Recover (Db DbStore : Type 0) : Type 0 where
  pub db_store : DbStore
  pub storage : Option (MutationStore Db)

module _ {Db DbStore : Type 0} where
  abbrev pub on_db_store : Exec DbStore (Unit {0}) → Exec (Recover Db DbStore) (Unit {0})
  on_db_store m x = let (r, d) = m x.db_store in (r, record x { db_store = d })

  -- `if let Some(s) = &self.storage { … }`
  abbrev on_store :
      Exec (MutationStore Db) (Unit {0})
      → Option (MutationStore Db)
      → Exec (Recover Db DbStore) (Unit {0})
  on_store m none x = (ok tt, x)
  on_store m (some s) x = let (r, t) = m s in (r, record x { storage = some t })

  abbrev pub on_storage : Exec (MutationStore Db) (Unit {0}) → Exec (Recover Db DbStore) (Unit {0})
  on_storage m x = on_store m x.storage x

unfoldable pub push_fetched :
    Fetched → Option (Result (List Fetched)) → Option (Result (List Fetched))
push_fetched c none = none
push_fetched c (some (err e)) = some (err e)
push_fetched c (some (ok txs)) = some (ok (c ∷ txs))

-- It stops if there is no rollup before.
unfoldable pub fetch_last :
    (Bytes → Option (Result (List Fetched))) → Option Bytes → Option (Result (List Fetched))
fetch_last next none = some (ok [])
fetch_last next (some tx) = next tx

unfoldable pub fetch_step :
    (Bytes → Option (Result (List Fetched)))
    → ℕ
    → Bytes
    → Result Tags
    → Option (Result (List Fetched))
unfolding push_fetched fetch_last
fetch_step next block tx (err e) = some (err e)
fetch_step next block tx (ok t) =
    if ltb t.end_block block
    then some (ok [])
    else push_fetched (record { tx = tx; end_block = t.end_block; version = t.version })
        (fetch_last next t.last_rollup_tx)

module _ (archive : Archive) where
  -- From one rollup back to the first that ends before `block`.
  unfoldable pub fetch_loop : ℕ → ℕ → Bytes → Option (Result (List Fetched))
  unfolding fetch_step
  fetch_loop zero block tx = none
  fetch_loop (suc fuel) block tx =
      fetch_step (fetch_loop fuel block) block tx (archive.get_tx_tags tx)

  -- `self.get_latest_arweave_tx().await?`
  abbrev pub fetch_from : ℕ → ℕ → Result Bytes → Option (Result (List Fetched))
  fetch_from fuel block (err e) = some (err e)
  fetch_from fuel block (ok tx) = fetch_loop fuel block tx

  unfoldable pub fetch_arweave_tx_from_block :
      ℕ → RecoverConfig → ℕ → Option (Result (List Fetched))
  unfolding fetch_loop
  fetch_arweave_tx_from_block fuel config block =
      fetch_from fuel block (archive.get_latest_arweave_tx config.network_id)

-- A round that replayed its transactions without an error is followed by one from the next block on.
abbrev after_round :
    {S : Type 0}
    → (ℕ → S → Option (Result ℕ × S))
    → ℕ
    → Result (Unit {0}) × S
    → Option (Result ℕ × S)
after_round next end_block (ok u, x) = next (add_u64 end_block 1) x
after_round next end_block (err e, x) = some (err e, x)

abbrev round :
    {S : Type 0}
    → (List Fetched → Exec S (Unit {0}))
    → (ℕ → S → Option (Result ℕ × S))
    → ℕ
    → Option (Result (List Fetched))
    → S
    → Option (Result ℕ × S)
round replay next from_block none x = none
round replay next from_block (some (err e)) x = some (err e, x)
round replay next from_block (some (ok [])) x = some (ok from_block, x)
round replay next from_block (some (ok (c ∷ cs))) x =
    after_round next c.end_block (replay (c ∷ cs) x)

-- The block to start from.
abbrev start_of : Option (ℕ × ℕ) → ℕ
start_of none = 0
start_of (some (block, order)) = block

-- The result without the block that the recovery ends at.
abbrev done : {S : Type 0} → Option (Result ℕ × S) → Option (Result (Unit {0}) × S)
done none = none
done (some (ok block, x)) = some (ok tt, x)
done (some (err e, x)) = some (err e, x)

module _ {Db DbStore Batch Mutation Ids : Type 0} (replay : Replay DbStore Batch Mutation Ids) where
  unfoldable pub recover_stat :
      ⦃E : Engine Cf Db⦄ ⦃cs : Codec MutationState⦄ → Exec (Recover Db DbStore) (Unit {0})
  recover_stat = do on_db_store replay.recover_db_state; on_storage recover

  module _ ⦃E : Engine Cf Db⦄ ⦃sha : Sha3⦄ ⦃h : Hex⦄ ⦃ch : Codec MutationHeader⦄
      ⦃cb : Codec MutationBody⦄ (config : RecoverConfig) (now : ℕ) where
    -- One row: it is verified and applied to the databases, and counted on a rollup node.
    unfoldable pub recover_row : Row → Exec (Recover Db DbStore) (Unit {0})
    recover_row r = do
      (dm, address, nonce) ← lift (
          map_err (replay.unwrap_and_light_verify r.body.payload r.body.signature)
            write_store_error)
      action ← lift (ok_or (replay.action_from_i32 dm) write_store_error)
      ids ← lift (replay.convert_doc_ids_map_to_vec r.doc_ids)
      on_db_store
          (replay.apply_mutation action dm address config.network_id nonce r.block r.order ids)
      if config.is_recover_rollup
          then on_storage (
              update_mutation_stat (record {
                payload = r.body.payload;
                signature = r.body.signature;
                doc_ids_map = r.doc_ids;
                sender = address;
                nonce = nonce;
                block = r.block;
                order = r.order;
                network = config.network_id;
                action = action;
                now = now;
              }))
          else pure tt

    unfoldable pub recover_from_arweave_tx : Fetched → Exec (Recover Db DbStore) (Unit {0})
    unfolding recover_row
    recover_from_arweave_tx c = do
      batches ← lift (replay.download_and_parse_record_batch c.tx)
      each
          (λ batch.
            lift (replay.convert_recordbatch_to_mutation batch c.version) >>= each recover_row)
          batches

    -- The transactions of one round, the oldest first.
    unfoldable pub replay_all : List Fetched → Exec (Recover Db DbStore) (Unit {0})
    unfolding recover_from_arweave_tx
    replay_all txs = each recover_from_arweave_tx (reverse txs)

    -- `rounds` is the fuel of the outer loop, `fuel` that of a fetch.
    unfoldable pub recover_from_arweave :
        Archive → ℕ → ℕ → ℕ → Recover Db DbStore → Option (Result ℕ × Recover Db DbStore)
    unfolding replay_all fetch_arweave_tx_from_block
    recover_from_arweave archive zero fuel from_block x = none
    recover_from_arweave archive (suc rounds) fuel from_block x =
        round replay_all (recover_from_arweave archive rounds fuel) from_block
          (fetch_arweave_tx_from_block archive fuel config from_block) x

    abbrev from_state :
        Archive
        → ℕ
        → ℕ
        → Result (Option (ℕ × ℕ))
        → Recover Db DbStore
        → Option (Result (Unit {0}) × Recover Db DbStore)
    from_state archive rounds fuel (err e) x = some (err e, x)
    from_state archive rounds fuel (ok last_block) x =
        done (recover_from_arweave archive rounds fuel (start_of last_block) x)

    unfoldable pub recover_from_ar :
        Archive → ℕ → ℕ → Recover Db DbStore → Option (Result (Unit {0}) × Recover Db DbStore)
    unfolding recover_from_arweave
    recover_from_ar archive rounds fuel x =
        let (r, d) = replay.recover_block_state x.db_store in
        from_state archive rounds fuel r (record x { db_store = d })
