-- ===== src/DbStore/State.antt =====
-- What the methods of DBStoreV2 make of the states of the databases, which are kept under the hex text
-- of their addresses.
use rtstore.Base.{
  ℕ, zero, suc, ◌%◌, ◌^◌, not, Option, none, some, List, [], ◌∷◌, length, ◌==◌, if◌then◌else◌,
}
use rtstore.Base.Bytes.{Bytes}
use rtstore.Base.Words.{add_u64, sub_u64, lt_i64}
use rtstore.Base.Dict
use rtstore.Base.Dict.{Dict}
use rtstore.Base.Result.{Result, ok, err, write_store_error}
use rtstore.DbStore.{CollectionState, DatabaseState}

abbrev pub new_database_state : DatabaseState
new_database_state = record { doc_order = 0; collection_state = []; total_doc_count = 0 }

unfoldable pub update_db_state_for_add_db : Bytes → Dict DatabaseState → Dict DatabaseState
unfolding Dict.insert
update_db_state_for_add_db db_addr = Dict.insert db_addr new_database_state

unfoldable pub with_collection : Bytes → DatabaseState → DatabaseState
unfolding Dict.insert
with_collection col s = record s {
  collection_state = Dict.insert col (record { total_doc_count = 0 }) s.collection_state;
}

unfoldable pub update_db_state_for_new_collection :
    Bytes → Bytes → Dict DatabaseState → Dict DatabaseState
unfolding Dict.adjust with_collection
update_db_state_for_new_collection db_addr col = Dict.adjust db_addr (with_collection col)

abbrev pub fewer_docs : ℕ → CollectionState → CollectionState
fewer_docs count c = record { total_doc_count = sub_u64 c.total_doc_count count }

abbrev pub more_docs : ℕ → CollectionState → CollectionState
more_docs count c = record { total_doc_count = add_u64 c.total_doc_count count }

unfoldable pub without_docs : Bytes → ℕ → DatabaseState → DatabaseState
unfolding Dict.adjust
without_docs col count s = record s {
  total_doc_count = sub_u64 s.total_doc_count count;
  collection_state = Dict.adjust col (fewer_docs count) s.collection_state;
}

unfoldable pub update_db_state_for_delete_docs :
    Bytes → Bytes → ℕ → Dict DatabaseState → Dict DatabaseState
unfolding Dict.adjust without_docs
update_db_state_for_delete_docs db_addr col count = Dict.adjust db_addr (without_docs col count)

-- `ids.iter().max().unwrap_or(default)`
unfoldable pub max_from : ℕ → List ℕ → ℕ
max_from m [] = m
max_from m (i ∷ is) = max_from (if lt_i64 i m then m else i) is

unfoldable pub max_or : List ℕ → ℕ → ℕ
unfolding max_from
max_or [] default = default
max_or (i ∷ is) default = max_from i is

-- `for id in 1..(doc_count + 1) { ids.push(doc_order + id) }`, from `id` on.
unfoldable pub next_ids : ℕ → ℕ → ℕ → List ℕ
next_ids doc_order id zero = []
next_ids doc_order id (suc count) = add_u64 doc_order id ∷ next_ids doc_order (suc id) count

-- The ids of the new documents, and the database's new `doc_order`.
unfoldable pub ids_for : ℕ → Option (List ℕ) → ℕ → Result (List ℕ × ℕ)
unfolding max_or next_ids
ids_for doc_count none doc_order =
    ok (next_ids doc_order 1 doc_count, add_u64 doc_order (doc_count % 2 ^ 64))
ids_for doc_count (some ids) doc_order =
    if not (length ids == doc_count)
    then err write_store_error
    else ok (ids, max_or ids (add_u64 doc_order (doc_count % 2 ^ 64)))

unfoldable pub with_docs : Bytes → ℕ → ℕ → DatabaseState → DatabaseState
unfolding Dict.adjust
with_docs col count doc_order s = record {
  doc_order = doc_order;
  total_doc_count = add_u64 s.total_doc_count count;
  collection_state = Dict.adjust col (more_docs count) s.collection_state;
}

unfoldable pub add_docs_to :
    Bytes
    → Bytes
    → ℕ
    → Dict DatabaseState
    → Result (List ℕ × ℕ)
    → Result (Option (List ℕ)) × Dict DatabaseState
unfolding Dict.adjust with_docs
add_docs_to db_addr_hex col doc_count states (err e) = (err e, states)
add_docs_to db_addr_hex col doc_count states (ok (ids, doc_order)) =
    (ok (some ids), Dict.adjust db_addr_hex (with_docs col doc_count doc_order) states)

-- Of a database that has no state there are no ids.
unfoldable pub add_docs_at :
    Bytes
    → Bytes
    → ℕ
    → Option (List ℕ)
    → Dict DatabaseState
    → Option DatabaseState
    → Result (Option (List ℕ)) × Dict DatabaseState
unfolding ids_for add_docs_to
add_docs_at db_addr_hex col doc_count doc_ids states none = (ok none, states)
add_docs_at db_addr_hex col doc_count doc_ids states (some s) =
    add_docs_to db_addr_hex col doc_count states (ids_for doc_count doc_ids s.doc_order)

unfoldable pub update_db_state_for_add_docs :
    Bytes
    → Bytes
    → ℕ
    → Option (List ℕ)
    → Dict DatabaseState
    → Result (Option (List ℕ)) × Dict DatabaseState
unfolding Dict.get add_docs_at
update_db_state_for_add_docs db_addr_hex col doc_count doc_ids states =
    add_docs_at db_addr_hex col doc_count doc_ids states (Dict.get db_addr_hex states)
