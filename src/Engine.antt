-- ===== src/Engine.antt =====
-- The storage engines that the node links, as an interface: RocksDB under the mutation store and
-- the database store, and libmdbx under the state store. Both keep named tables (column families)
-- of byte strings in the order of the keys, and write a batch at once or not at all.
-- The code of neither is in the repository: the model takes an engine as a parameter.
pub mod Entries
pub mod Memory
pub mod Extend
pub mod Calls
use rtstore.Base.{
  ℕ, ◌≡◌, Bool, true, ◌&&◌, not, Option, none, some, List, [], ◌∷◌, reverse, Eq, if◌then◌else◌,
}
use rtstore.Base.Bytes.{Bytes, bytes_eq, bytes_lt}
use Entries.{Entry, lookup, from, IsAscending}

-- One write of a `WriteBatch`.
pub data Op (Cf : Type 0) : Type 0 where
  put_cf : Cf → Bytes → Bytes → Op Cf
  delete_cf : Cf → Bytes → Op Cf
  delete_range_cf : Cf → Bytes → Bytes → Op Cf

-- The calls. `none` is an error of the engine. An iterator is what is still ahead of it: `seek` and
-- `next` walk up from the first key that is not below the given one, `seek_to_last` and `prev` down.
pub record Engine (Cf Db : Type 0) : Type 0 where
  pub cf_handle : Db → Cf → Bool
  pub get_cf : Db → Cf → Bytes → Option (Option Bytes)
  pub write : Db → List (Op Cf) → Option Db
  pub seek : Db → Cf → Bytes → List Entry
  pub seek_to_last : Db → Cf → List Entry

-- What a write makes of the value at one key of one table.
module _ {Cf : Type 0} ⦃q : Eq Cf⦄ where
  abbrev pub op_at : Op Cf → Cf → Bytes → Option Bytes → Option Bytes
  op_at (put_cf c k v) cf key o = if q.beq c cf && bytes_eq k key then some v else o
  op_at (delete_cf c k) cf key o = if q.beq c cf && bytes_eq k key then none else o
  op_at (delete_range_cf c lo hi) cf key o =
      if q.beq c cf && (not (bytes_lt key lo) && bytes_lt key hi) then none else o

  -- The writes of a batch take effect in order.
  abbrev pub batch_at : List (Op Cf) → Cf → Bytes → Option Bytes → Option Bytes
  batch_at [] cf key o = o
  batch_at (op ∷ ops) cf key o = batch_at ops cf key (op_at op cf key o)

-- The documented behaviour of an engine that is up: all its tables are open and no call fails.
pub record IsUp {Cf Db : Type 0} ⦃q : Eq Cf⦄ (e : Engine Cf Db) : Type 0 where
  pub entries : Db → Cf → List Entry
  pub applied : Db → List (Op Cf) → Db
  pub open_cf : (db : Db) (cf : Cf) → e.cf_handle db cf ≡ true
  pub ascending : (db : Db) (cf : Cf) → IsAscending (entries db cf)
  pub reads : (db : Db) (cf : Cf) (k : Bytes) → e.get_cf db cf k ≡ some (lookup k (entries db cf))
  pub seeks : (db : Db) (cf : Cf) (k : Bytes) → e.seek db cf k ≡ from k (entries db cf)
  pub seeks_last : (db : Db) (cf : Cf) → e.seek_to_last db cf ≡ reverse (entries db cf)
  pub writes : (db : Db) (ops : List (Op Cf)) → e.write db ops ≡ some (applied db ops)
  pub written :
      (db : Db) (ops : List (Op Cf)) (cf : Cf) (k : Bytes)
      → lookup k (entries (applied db ops) cf) ≡ batch_at ops cf k (lookup k (entries db cf))

-- A message of the protocol and its bytes (prost). Decoding gives back what was encoded.
pub record Codec (T : Type 0) : Type 0 where
  pub encode : T → Option Bytes
  pub decode : Bytes → Option T

pub record IsCodec {T : Type 0} (c : Codec T) : Type 0 where
  pub encoded : T → Bytes
  pub encodes : (t : T) → c.encode t ≡ some (encoded t)
  pub decodes : (t : T) → c.decode (encoded t) ≡ some t
