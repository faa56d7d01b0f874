-- ===== src/Documents/Placeholders.antt =====
-- The query of DocStore, of src/storage/src/doc_store.rs: the statement is prepared and its
-- placeholders are set before the database is asked for.
use rtstore.Base.{ℕ, ◌%◌, ◌^◌, Option, none, some, List, [], ◌∷◌}
use rtstore.Base.Bytes.{Bytes}
use rtstore.Base.Result.{read_store_error, write_store_error, Result, ok, err, ok_or, ◌>>=◌}
use rtstore.Crypto.{Hex}
use rtstore.Crypto.Address.{Db3Address}
use rtstore.Proto.Database.{Parameter, QueryParameter, Query}
use rtstore.Documents.{Ejdb, Handles, Documents, with_db}

module _ {World Db Statement Cache : Type 0} (E : Ejdb World Db Statement) (H : Handles Db Cache)
    ⦃h : Hex⦄ where
  -- A parameter without a value is skipped.
  abbrev set_one : QueryParameter → Option Parameter → Statement → Result Statement
  set_one param none st = ok st
  set_one param (some value) st =
      ok_or (E.set_placeholder param.name param.idx value st) read_store_error

  abbrev set_all : List QueryParameter → Statement → Result Statement
  set_all [] st = ok st
  set_all (param ∷ params) st = set_one param param.parameter st >>= set_all params

  unfoldable pub prepared : Bytes → Query → Result Statement
  prepared col_name query = do
    st ← ok_or (E.init (E.query_new col_name query.query_str)) read_store_error
    set_all query.parameters st

  -- `count as u64`
  abbrev counted : Option (List (ℕ × Bytes) × ℕ) → Result (List (ℕ × Bytes) × ℕ)
  counted none = err read_store_error
  counted (some (docs, count)) = ok (docs, count % 2 ^ 64)

  abbrev run :
      Db3Address
      → Result Statement
      → Documents World Cache
      → Result (List (ℕ × Bytes) × ℕ) × Documents World Cache
  unfolding with_db
  run addr (err e) s = (err e, s)
  run addr (ok st) s =
      with_db E H addr (err write_store_error) (λ db w. (counted (E.exec db st w), w)) s

  unfoldable pub execute_query :
      Db3Address
      → Bytes
      → Query
      → Documents World Cache
      → Result (List (ℕ × Bytes) × ℕ) × Documents World Cache
  unfolding prepared run
  execute_query addr col_name query = run addr (prepared col_name query)
