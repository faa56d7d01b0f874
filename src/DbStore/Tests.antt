-- ===== src/DbStore/Tests.antt =====
-- The theorems on documents and their ids at work on an engine in memory.
use rtstore.Base.{◌≡◌, refl, true, false, none, some, List, [], ◌∷◌, arith, if◌then◌else◌}
use rtstore.Base.Bytes.{be, bytes_eq, bytes_lt}
use rtstore.Base.Counting.{IsCounting}
use rtstore.Base.Dict
use rtstore.Base.Result.{Db3Error, owner_verify_failed, ok, err}
use rtstore.Engine.Entries.{lookup}
use rtstore.Engine.Memory.{memory, memory-IsUp, run_ops}
use rtstore.Crypto.{Hex}
use rtstore.Crypto.HexText.{hex_text, toy_digest}
use rtstore.Crypto.Address.{to_hex}
use rtstore.StorageKeys.DbDocKey
use rtstore.Proto.Frames.{
  collection_codec, database_codec, block_codec, collection_codec-IsCodec, database_codec-IsCodec,
  block_codec-IsCodec,
}
use rtstore.DbStore.{Cf, cf_eq, DatabaseState, DbStore, DocStore}
use rtstore.DbStore
use rtstore.DbStore.Read.{verify_docs_ownership}
use rtstore.DbStore.Owners.{owns_all, owner, same_doc, verify_docs_ownership-answers}
use rtstore.DbStore.Docs.{add_docs, update_docs, delete_docs}
use rtstore.DbStore.Ownership.{owner-add_docs, owner-delete_docs, unowned_unchanged}
use rtstore.DbStore.Ids.{Change, added, deleted, demand, issued, issued-IsCounting}
use rtstore.DbStore.Fixtures.{
  bob_state, bob_has_state, counting_docs, alice, bob, bob-IsAddress, users, Store, with_db,
  with_users,
}

unfoldable with_docs : Store
unfolding add_docs with_users
with_docs = (add_docs bob alice users ([] ∷ [] ∷ []) none with_users).1

alice_owns_not_all : verify_docs_ownership alice bob (1 ∷ 3 ∷ []) with_docs ≡ (
    if owns_all memory-IsUp alice bob (1 ∷ 3 ∷ []) with_docs
    then ok tt
    else err owner_verify_failed)
alice_owns_not_all = verify_docs_ownership-answers memory-IsUp alice bob (1 ∷ 3 ∷ []) with_docs

docs_run : add_docs bob alice users ([] ∷ [] ∷ []) none with_users ≡ (ok (1 ∷ 2 ∷ []), with_docs)
unfolding add_docs with_docs with_users with_db lookup rtstore.DbStore.new run_ops bytes_eq be
    Dict.get rtstore.Crypto.HexText.encode rtstore.Proto.Frames.read_database
    rtstore.Proto.Frames.flat_database
docs_run = refl

owner-add_docs_example : owner memory-IsUp with_docs bob 2 ≡ (
    if same_doc bob (1 ∷ 2 ∷ []) bob 2 then some (be 20 1) else owner memory-IsUp with_users bob 2)
owner-add_docs_example =
    owner-add_docs memory-IsUp bob alice users ([] ∷ [] ∷ []) none with_users with_docs (1 ∷ 2 ∷ [])
      docs_run bob 2 bob-IsAddress bob-IsAddress (omega arith, (omega arith, tt)) (omega arith)

unfoldable without_doc : Store
unfolding delete_docs with_docs
without_doc = (delete_docs bob alice users (1 ∷ []) with_docs).1

delete_run : delete_docs bob alice users (1 ∷ []) with_docs ≡ (ok tt, without_doc)
unfolding delete_docs without_doc with_docs with_users with_db bytes_lt lookup rtstore.DbStore.new
    run_ops bytes_eq be Dict.get rtstore.Crypto.HexText.encode rtstore.Proto.Frames.read_database
    rtstore.Proto.Frames.flat_database
delete_run = refl

owner-delete_docs_example :
    (owns_all memory-IsUp alice bob (1 ∷ []) with_docs ≡ true)
    × (owner memory-IsUp without_doc bob 2
        ≡ (if same_doc bob (1 ∷ []) bob 2 then none else owner memory-IsUp with_docs bob 2))
owner-delete_docs_example =
    owner-delete_docs memory-IsUp bob alice users (1 ∷ []) with_docs without_doc delete_run bob 2
      bob-IsAddress bob-IsAddress (omega arith, tt) (omega arith)

bob_owns_none : owns_all memory-IsUp bob bob (1 ∷ []) with_docs ≡ false
unfolding owns_all with_docs with_users with_db memory-IsUp DbDocKey.encode bytes_lt lookup
    rtstore.DbStore.new run_ops bytes_eq be Dict.get rtstore.Crypto.HexText.encode
    rtstore.Proto.Frames.read_database rtstore.Proto.Frames.flat_database
bob_owns_none = refl

unowned_unchanged_example :
    ((x : Db3Error) × (update_docs bob bob users ([] ∷ []) (1 ∷ []) with_docs ≡ (err x, with_docs)))
    × ((x : Db3Error) × (delete_docs bob bob users (1 ∷ []) with_docs ≡ (err x, with_docs)))
unowned_unchanged_example =
    unowned_unchanged memory-IsUp bob bob users ([] ∷ []) (1 ∷ []) with_docs bob_owns_none

abbrev changes : List Change
changes =
    added (to_hex bob) users 2 none
    ∷ deleted (to_hex bob) users 1
    ∷ added (to_hex alice) users 1 (some (7 ∷ []))
    ∷ added (to_hex bob) users 1 none
    ∷ []

issued-IsCounting_example : IsCounting 0 (issued (to_hex bob) changes with_users.db_state)
unfolding demand bytes_eq be rtstore.Crypto.HexText.encode to_hex
issued-IsCounting_example =
    issued-IsCounting (to_hex bob) changes with_users.db_state bob_state
      (λ _. refl, (tt, (λ same. ground (arith, same), (λ _. refl, tt)))) bob_has_state (omega arith)
