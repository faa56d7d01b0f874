-- ===== src/Documents.antt =====
-- DocStore, of src/storage/src/doc_store.rs: the documents of the databases. Each database is an ejdb
-- database in a directory, opened when it is first asked for. ejdb, with its query language, and the
-- cache of the open databases are the interfaces `Ejdb` and `Handles`.
pub mod Placeholders
pub mod Kept
pub mod Added
mod Memory
mod Tests
use rtstore.Base.{ℕ, ◌==◌, if◌then◌else◌, Bool, true, false, Option, none, some, List, [], ◌∷◌}
use rtstore.Base.Bytes.{Bytes}
use rtstore.Base.Result.{write_store_error, Result, ok, err, ok_or}
use rtstore.Crypto.{Hex}
use rtstore.Crypto.Address.{Db3Address, to_hex}
use rtstore.Keys.{push}
use rtstore.Proto.Database.{Parameter, Index}

-- `World` is what is on the disk, `Db` an open database and `Statement` a prepared query. A call that
-- fails is `false` or `none`; `get` of a document that is not there fails, too.
pub record Ejdb (World Db Statement : Type 0) : Type 0 where
  pub open_db : Bytes → World → Option Db × World
  pub ensure_index : Db → Bytes → Bytes → ℕ → World → Bool × World
  pub put_new : Db → Bytes → Bytes → World → Option ℕ × World
  pub put : Db → Bytes → Bytes → ℕ → World → Bool × World
  pub patch : Db → Bytes → Bytes → ℕ → World → Bool × World
  pub del : Db → Bytes → ℕ → World → Bool × World
  pub get : Db → Bytes → ℕ → World → Option Bytes
  pub query_new : Bytes → Bytes → Statement
  pub init : Statement → Option Statement
  pub set_placeholder : Bytes → ℕ → Parameter → Statement → Option Statement
  pub exec : Db → Statement → World → Option (List (ℕ × Bytes) × ℕ)

-- A cache of a bounded size: what was put in may be gone at any time.
pub record Handles (Db Cache : Type 0) : Type 0 where
  pub lookup : Bytes → Cache → Option Db
  pub insert : Bytes → Db → Cache → Cache

pub record DocStoreConfig : Type 0 where
  pub db_root_path : Bytes
  pub in_memory_db_handle_limit : ℕ

pub record Documents (World Cache : Type 0) : Type 0 where
  pub config : DocStoreConfig
  pub dbs : Cache
  pub world : World

-- A call returns, or it panics.
pub data Called : Type 0 where
  returned : Result (Unit {0}) → Called
  panicked : Called

-- EJDB_INDEX
abbrev ejdb_index : ℕ → Option ℕ
ejdb_index n =
    if n == 0
    then some 1
    else if n == 1
    then some 4
    else if n == 2
    then some 8
    else if n == 3
    then some 16
    else none

abbrev pub failed : Called
failed = returned (err write_store_error)

-- `call.map_err(…)?`, and then the rest of the loop.
abbrev pub go_on : {World : Type 0} → Bool × World → (World → Called × World) → Called × World
go_on (false, w) rest = (failed, w)
go_on (true, w) rest = rest w

-- The loops over documents with `ids[i]`, which panics when there are fewer ids.
unfoldable pub each_doc :
    {World : Type 0}
    → (Bytes → ℕ → World → Bool × World)
    → List Bytes
    → List ℕ
    → World
    → Called × World
each_doc f [] ids w = (returned (ok tt), w)
each_doc f (doc ∷ docs) [] w = (panicked, w)
each_doc f (doc ∷ docs) (id ∷ ids) w = go_on (f doc id w) (each_doc f docs ids)

abbrev pub unit_or_failed : {World : Type 0} → Bool × World → Result (Unit {0}) × World
unit_or_failed (false, w) = (err write_store_error, w)
unit_or_failed (true, w) = (ok tt, w)

-- The directory of a database.
unfoldable pub db_path : ⦃h : Hex⦄ → DocStoreConfig → Db3Address → Bytes
unfolding to_hex
db_path config addr = push config.db_root_path (to_hex addr)

abbrev pub some_or_failed : Option Bytes → Result (Option Bytes)
some_or_failed none = err write_store_error
some_or_failed (some text) = ok (some text)

module _ {World Db Statement Cache : Type 0} (E : Ejdb World Db Statement) (H : Handles Db Cache)
    ⦃h : Hex⦄ where
  unfoldable pub open_db_internal : DocStoreConfig → Db3Address → World → Option Db × World
  unfolding db_path
  open_db_internal config addr w = E.open_db (db_path config addr) w

  abbrev opened :
      Bytes → Option Db × World → Documents World Cache → Option Db × Documents World Cache
  opened key (none, w) s = (none, record s { world = w })
  opened key (some db, w) s = (some db, record s { world = w; dbs = H.insert key db s.dbs })

  -- `self.dbs.entry(key).or_optionally_insert_with(…)`
  abbrev entry_or :
      Db3Address → Option Db → Documents World Cache → Option Db × Documents World Cache
  unfolding open_db_internal
  entry_or addr (some db) s = (some db, s)
  entry_or addr none s = opened addr.bytes (open_db_internal s.config addr s.world) s

  unfoldable pub get_db_ref : Db3Address → Documents World Cache → Option Db × Documents World Cache
  unfolding entry_or
  get_db_ref addr s = entry_or addr (H.lookup addr.bytes s.dbs) s

  abbrev given :
      {A : Type 0}
      → Option Db × Documents World Cache
      → A
      → (Db → World → A × World)
      → A × Documents World Cache
  given (none, s) missing f = (missing, s)
  given (some db, s) missing f = let (a, w) = f db s.world in (a, record s { world = w })

  -- `if let Some(db) = self.get_db_ref(db_addr) { … } else { missing }`
  unfoldable pub with_db :
      {A : Type 0}
      → Db3Address
      → A
      → (Db → World → A × World)
      → Documents World Cache
      → A × Documents World Cache
  unfolding get_db_ref
  with_db addr missing f s = given (get_db_ref addr s) missing f

  unfoldable pub create_database :
      Db3Address → Documents World Cache → Result (Unit {0}) × Documents World Cache
  unfolding open_db_internal
  create_database addr s =
      let (db, w) = open_db_internal s.config addr s.world in (created db, record s { world = w })
    where
      created : Option Db → Result (Unit {0})
      created none = err write_store_error
      created (some _) = ok tt

  abbrev add_one : Bytes → Db → Index → Option ℕ → (World → Called × World) → World → Called × World
  add_one name db field none rest w = (panicked, w)
  add_one name db field (some mode) rest w = go_on (E.ensure_index db name field.path mode w) rest

  abbrev add_all : Bytes → List Index → Db → World → Called × World
  add_all name [] db w = (returned (ok tt), w)
  add_all name (field ∷ fields) db w =
      add_one name db field (ejdb_index field.index_type) (add_all name fields db) w

  -- A database that cannot be opened gets no index, and the call succeeds.
  unfoldable pub add_index :
      Db3Address → Bytes → List Index → Documents World Cache → Called × Documents World Cache
  unfolding with_db
  add_index addr name [] s = (returned (ok tt), s)
  add_index addr name (field ∷ fields) s =
      with_db addr (returned (ok tt)) (add_all name (field ∷ fields)) s

  unfoldable pub add_str_doc :
      Db3Address → Bytes → Bytes → Documents World Cache → Result ℕ × Documents World Cache
  unfolding with_db
  add_str_doc addr col_name doc =
      with_db addr (err write_store_error)
        λ db w. let (id, w') = E.put_new db col_name doc w in (ok_or id write_store_error, w')

  unfoldable pub add_str_docs :
      Db3Address
      → Bytes
      → List Bytes
      → List ℕ
      → Documents World Cache
      → Called × Documents World Cache
  unfolding with_db each_doc
  add_str_docs addr col_name docs ids =
      with_db addr failed λ db. each_doc (E.put db col_name) docs ids

  unfoldable pub patch_docs :
      Db3Address
      → Bytes
      → List Bytes
      → List ℕ
      → Documents World Cache
      → Called × Documents World Cache
  unfolding with_db each_doc
  patch_docs addr col_name docs ids =
      with_db addr failed λ db. each_doc (E.patch db col_name) docs ids

  unfoldable pub patch_doc :
      Db3Address
      → Bytes
      → Bytes
      → ℕ
      → Documents World Cache
      → Result (Unit {0}) × Documents World Cache
  unfolding with_db
  patch_doc addr col_name doc id =
      with_db addr (err write_store_error) λ db w. unit_or_failed (E.patch db col_name doc id w)

  abbrev delete_each : Bytes → List ℕ → Db → World → Called × World
  delete_each col_name [] db w = (returned (ok tt), w)
  delete_each col_name (id ∷ ids) db w =
      go_on (E.del db col_name id w) (delete_each col_name ids db)

  unfoldable pub delete_docs :
      Db3Address → Bytes → List ℕ → Documents World Cache → Called × Documents World Cache
  unfolding with_db
  delete_docs addr col_name ids = with_db addr failed (delete_each col_name ids)

  unfoldable pub delete_doc :
      Db3Address → Bytes → ℕ → Documents World Cache → Result (Unit {0}) × Documents World Cache
  unfolding with_db
  delete_doc addr col_name id =
      with_db addr (err write_store_error) λ db w. unit_or_failed (E.del db col_name id w)

  unfoldable pub get_doc :
      Db3Address → Bytes → ℕ → Documents World Cache → Result (Option Bytes) × Documents World Cache
  unfolding with_db
  get_doc addr col_name id =
      with_db addr (ok none) λ db w. (some_or_failed (E.get db col_name id w), w)
