-- ===== src/Lib.antt =====
-- rtstore: a verification library for the DB3 storage node (src/node, src/storage, src/crypto).
--
-- A storage node takes signed mutations. `StateStore` grants the nonce that a mutation carries,
-- `MutationStore` numbers the mutation with a block and an order in it and stores its body and its
-- header, a task closes the block every few seconds (`increase_block_return_last_state`), and
-- `RollupExecutor` uploads the mutations of the closed blocks to an archive, records the upload, and
-- collects old mutations. What a mutation asks for, `DBStoreV2` does (`apply_mutation`): databases,
-- their collections and documents, with the checks of who may do it.
--
-- The parts and the files that model them:
--   Base: lists and tests on native numbers, byte strings and their order (Base/Bytes), the errors of
--   src/error/src/lib.rs and `Result` (Base/Result), methods that change their object (Base/Exec), machine integers (Base/Words), hash maps
--   (Base/Dict) and decimal texts (Base/Decimal).
--   Engine: RocksDB and libmdbx as an interface of named tables, `IsUp` as what is asked of an engine
--   that does not fail, an engine in memory that has it (Engine/Memory), and what a batch makes of a
--   whole table (Engine/Extend). Protobuf is the interface `Codec`.
--   Crypto: src/crypto/src/db3_address.rs, id.rs and id_v2.rs. `hex` and `Sha3` are interfaces.
--   Proto: the stored messages of src/proto/proto, those on databases in Proto/Database and the
--   mutations in Proto/Mutation, and encodings for the tests (Proto/Flat, Proto/Frames).
--   MutationStore: src/storage/src/mutation_store.rs. The state is in MutationStore.antt, the methods
--   that read in Read, those that write in Write and Mutations, each under its name in the source.
--   The other files hold proofs: Numbering, Restart, Keys, RoundTrip, Range, Gc, Scan, Stats.
--   StateStore: src/storage/src/state_store.rs; the nonces are in StateStore/Nonces.
--   StorageKeys: doc_key_v2.rs, db_doc_key_v2.rs, db_owner_key_v2.rs and collection_key.rs of
--   src/storage/src.
--   Rollup: src/node/src/rollup_executor.rs; `process` and `gc_mutation` are in Rollup/Process, split
--   at their early returns. The archive and the contract are the interface `Network`.
--   Recover: src/node/src/recover.rs. Its two loops follow the archive and run on fuel: the inner one
--   needs a step for each rollup, the outer one two rounds, when the archive does not grow meanwhile.
--   DbStore: src/storage/src/db_store_v2.rs. The state is in DbStore.antt, with the document store as
--   the interface `DocStore`; what the methods make of the counters is in State, the methods that read
--   in Read, Lookup and Recovery, those that write in Write, Docs, Collections, Databases and Persist,
--   each under its name in the source; `apply_mutation` is in Apply, one body of a mutation in Bodies.
--   The other files hold proofs: Owners, Ownership, Ids, Found, Indexes, Created, Deleted, Keeps,
--   Numbered, Flushed, Restored.
--   Node: `send_mutation` of src/node/src/storage_node_light_impl.rs, which composes the three stores,
--   in Node/Send, split at its early returns. The check of the signature is the interface `Verify`.
--   The requests that only read are in Node/Queries and the turns of its tasks in Node/Tasks. The proofs
--   are in Accepted, Replays and DocIds.
--   Subscribers: subscribe and keep_subscription of the same file; one turn of the loop is one step. The
--   proofs are in Delivery.
--   Event: src/event/src/event_processor.rs. A log of the contract is the argument of a step.
--   Mint: src/event/src/meta_store_event_processor.rs; the bodies are in Mint.antt, what they make of the
--   stores in Mint/Handle, split at its early returns, and the proof in Mint/Light. The contract's events
--   and the node's wallet are the interface `Registry`.
--   Indexer: src/node/src/indexer_impl.rs. The recovery follows the storage node on fuel, a step for each
--   hundred blocks; the storage node is the interface `StoreSdk`. The proof is in Stops.
--   Requests: src/node/src/mutation_utils.rs. EIP-712, signatures and JSON are the interface `Signing`.
--   Keys: src/storage/src/key_store.rs, over the interfaces `Files` and `Base64`.
--   Documents: src/storage/src/doc_store.rs, over the interfaces `Ejdb` and `Handles`; the queries are in
--   Documents/Placeholders. A loop with an index that is out of range ends as `panicked`. The proofs are
--   in Kept and Added. DBStoreV2 has its own interface of the document store, `DocStore`, without panics: it checks
--   that there is an id to each document.
--   Filters: src/base/src/bson_util.rs, the filters of queries, over the interface `BsonLib` of serde_json
--   and bson. The proof is in Accepted.
--   System: src/storage/src/system_store.rs (System.antt, System/Wallet) and src/node/src/system_impl.rs
--   (System/Setup, System/Status). The wallets are the interface `Wallets`, their randomness an
--   argument. The proofs are in Config, Network, Sequences, Made and Stable.
--
-- Integers are native numbers; an `i64` is the number of its 64 bits; where Rust's wrap around, `add_u64` and `add_u32` do. A method on
-- `&self` is a function from the object to a result and the object after it: what was written before
-- an error stays written. Locks are not poisoned, and a method is one step, so that concurrent tasks
-- are sequences of calls. The loops over a table need no fuel: an iterator is the list of what is
-- ahead of it.
--
-- Not modelled: opening the engines, logging, gRPC services, the clients and the command line (input
-- and output); ejdb and its query language; connections to a chain; arrow, parquet, arweave and
-- Ethereum. Where
-- DBStoreV2 cuts a prefix off a key that is too short, the source panics and the model ends the loop;
-- every key that it writes is long enough.
pub mod Base
pub mod Engine
pub mod Crypto
pub mod Proto
pub mod MutationStore
pub mod StateStore
pub mod StorageKeys
pub mod Rollup
pub mod Recover
pub mod DbStore
pub mod Requests
pub mod Keys
pub mod Documents
pub mod Filters
pub mod System
pub mod Event
pub mod Node
pub mod Indexer
pub mod Subscribers
pub mod Mint
