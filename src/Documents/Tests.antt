-- ===== src/Documents/Tests.antt =====
-- Documents in memory: what was added is read, ids that run out, and a type of index that is not known.
use rtstore.Base.{◌≡◌, refl, Option, none, some, List, [], ◌∷◌, arith}
use rtstore.Base.Bytes.{Bytes, be, bytes_eq}
use rtstore.Base.Result.{ok}
use rtstore.Crypto.HexText.{hex_text, encode}
use rtstore.Crypto.Address.{Db3Address, to_hex}
use rtstore.Documents.{
  Documents, returned, panicked, each_doc, db_path, open_db_internal, get_db_ref, with_db,
  add_index, add_str_docs, get_doc,
}
use rtstore.Documents.Kept.{IsCoherent, outcome, stored}
use rtstore.Documents.Added.{get_doc-add_str_docs}
use rtstore.Documents.Memory.{Entry, list_ejdb, last_handle, list_ejdb-IsReliable}

abbrev State : Type 0
State = Documents (List Entry) (Option (Bytes × Bytes))

abbrev fresh : State
fresh = record {
  config = record { db_root_path = b'd' ∷ b'b' ∷ []; in_memory_db_handle_limit = 1 };
  dbs = none;
  world = [];
}

abbrev fruits : Db3Address
fruits = record { bytes = be 20 1 }

abbrev col : Bytes
col = b'c' ∷ []

abbrev apple : Bytes
apple = b'{' ∷ b'}' ∷ []

abbrev pear : Bytes
pear = b'{' ∷ b' ' ∷ b'}' ∷ []

fresh-IsCoherent : IsCoherent list_ejdb-IsReliable fresh
unfolding list_ejdb-IsReliable
fresh-IsCoherent a g there = ground (arith, there)

get_doc-add_str_docs_example :
    ((add_str_docs list_ejdb last_handle fruits col (apple ∷ pear ∷ []) (1 ∷ 2 ∷ []) fresh).0
      ≡ returned (ok tt))
    × IsCoherent list_ejdb-IsReliable
        (add_str_docs list_ejdb last_handle fruits col (apple ∷ pear ∷ []) (1 ∷ 2 ∷ []) fresh).1
    × ((get_doc list_ejdb last_handle fruits col 2
          (add_str_docs list_ejdb last_handle fruits col
            (apple ∷ pear ∷ [])
            (1 ∷ 2 ∷ [])
            fresh).1).0
        ≡ ok (some pear))
unfolding outcome stored list_ejdb-IsReliable db_path to_hex be bytes_eq encode
get_doc-add_str_docs_example =
    get_doc-add_str_docs list_ejdb-IsReliable fruits col (apple ∷ pear ∷ []) (1 ∷ 2 ∷ []) fruits col
      2 fresh fresh-IsCoherent

ids_run_out :
    (add_str_docs list_ejdb last_handle fruits col (apple ∷ pear ∷ []) (1 ∷ []) fresh).0 ≡ panicked
unfolding list_ejdb add_str_docs with_db get_db_ref open_db_internal each_doc
ids_run_out = refl

unknown_index :
    (add_index list_ejdb last_handle fruits col
      (record { path = apple; index_type = 4 } ∷ [])
      fresh).0
    ≡ panicked
unfolding list_ejdb add_index with_db get_db_ref open_db_internal
unknown_index = refl
