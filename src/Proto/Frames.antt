-- ===== src/Proto/Frames.antt =====
-- An encoding of the messages on databases for the tests: each message is a list of fields, written
-- with their lengths. It shows that what is asked of the codec of a message can be had; the node uses
-- protobuf.
use rtstore.Base.{
  ℕ, zero, suc, ◌≡◌, refl, Option, none, some, List, [], ◌∷◌, ◌++◌, arith, length, take, drop,
  take-append, drop-append,
}
use rtstore.Base.Bytes.{Bytes}
use rtstore.Engine.{Codec, IsCodec}
use rtstore.Base.Dict.{Dict}
use rtstore.Proto.Database.{
  DatabaseStatePersistence, CollectionState, Index, Collection, Database, doc_db, event_db,
  DatabaseMessage, BlockState,
}

-- The fields, their number first.
unfoldable pub frames : List Bytes → Bytes
frames [] = []
frames (x ∷ xs) = length x ∷ (x ++ frames xs)

unfoldable pub framed : List Bytes → Bytes
unfolding frames
framed xs = length xs ∷ frames xs

unfoldable pub unframe : ℕ → Bytes → List Bytes
unframe zero b = []
unframe (suc k) [] = []
unframe (suc k) (n ∷ b) = take n b ∷ unframe k (drop n b)

unfoldable pub unframed : Bytes → List Bytes
unfolding unframe
unframed [] = []
unframed (k ∷ b) = unframe k b

pub unframe-frames : (xs : List Bytes) → unframe (length xs) (frames xs) ≡ xs
unfolding unframe frames
unframe-frames [] = refl
unframe-frames (x ∷ xs) =
    ground (arith, take-append x (frames xs), drop-append x (frames xs), unframe-frames xs)

-- Indexes, two fields each.
index_frames : List Index → List Bytes
index_frames [] = []
index_frames (i ∷ is) = i.path ∷ (i.index_type ∷ []) ∷ index_frames is

read_indexes : List Bytes → List Index
read_indexes (p ∷ (n ∷ []) ∷ fs) = record { path = p; index_type = n } ∷ read_indexes fs
read_indexes _ = []

read_indexes-index_frames : (is : List Index) → read_indexes (index_frames is) ≡ is
unfolding read_indexes index_frames
read_indexes-index_frames [] = refl
read_indexes-index_frames (i ∷ is) = ground (arith, read_indexes-index_frames is)

unfoldable pub flat_collection : Collection → Bytes
unfolding framed index_frames
flat_collection c = framed (c.name ∷ c.sender ∷ index_frames c.index_fields)

read_collection_frames : List Bytes → Option Collection
unfolding read_indexes
read_collection_frames (name ∷ sender ∷ fs) =
    some (record { name = name; index_fields = read_indexes fs; sender = sender })
read_collection_frames _ = none

unfoldable pub read_collection : Bytes → Option Collection
unfolding unframed read_collection_frames
read_collection b = read_collection_frames (unframed b)

read_collection-flat_collection : (c : Collection) → read_collection (flat_collection c) ≡ some c
unfolding read_collection flat_collection
read_collection-flat_collection c = ground (
  arith,
  unframe-frames (c.name ∷ c.sender ∷ index_frames c.index_fields),
  read_indexes-index_frames c.index_fields,
)

unfoldable pub flat_database : DatabaseMessage → Bytes
unfolding framed
flat_database m = elim m.database [
  | none ↦ framed []
  | some (doc_db d) ↦ framed (d.address ∷ d.sender ∷ d.desc ∷ [])
  | some (event_db e) ↦ framed (
      e.address
      ∷ e.sender
      ∷ e.contract_address
      ∷ e.desc
      ∷ (e.ttl ∷ [])
      ∷ e.events_json_abi
      ∷ e.evm_node_url
      ∷ (e.start_block ∷ [])
      ∷ [])
]

database_of : List Bytes → Option DatabaseMessage
database_of [] = some (record { database = none })
database_of (a ∷ s ∷ d ∷ []) =
    some (record { database = some (doc_db (record { address = a; sender = s; desc = d })) })
database_of (a ∷ s ∷ c ∷ d ∷ (ttl ∷ []) ∷ abi ∷ url ∷ (start ∷ []) ∷ []) = some (record {
  database = some (
      event_db (record {
        address = a;
        sender = s;
        contract_address = c;
        desc = d;
        ttl = ttl;
        events_json_abi = abi;
        evm_node_url = url;
        start_block = start;
      }));
})
database_of _ = none

unfoldable pub read_database : Bytes → Option DatabaseMessage
unfolding unframed database_of
read_database b = database_of (unframed b)

-- A message by its one field.
message_with : Option Database → DatabaseMessage
message_with d = record { database = d }

read_flat_message :
    (o : Option Database) → read_database (flat_database (message_with o)) ≡ some (message_with o)
unfolding read_database flat_database message_with
read_flat_message none = refl
read_flat_message (some (doc_db d)) =
    ground (arith, unframe-frames (d.address ∷ d.sender ∷ d.desc ∷ []))
read_flat_message (some (event_db e)) = ground (
  arith,
  unframe-frames (
      e.address
      ∷ e.sender
      ∷ e.contract_address
      ∷ e.desc
      ∷ (e.ttl ∷ [])
      ∷ e.events_json_abi
      ∷ e.evm_node_url
      ∷ (e.start_block ∷ [])
      ∷ []),
)

read_database-flat_database : (m : DatabaseMessage) → read_database (flat_database m) ≡ some m
unfolding message_with
read_database-flat_database m = read_flat_message m.database

-- The states of the collections, two fields each.
count_frames : Dict CollectionState → List Bytes
count_frames [] = []
count_frames ((name, c) ∷ d) = name ∷ (c.total_doc_count ∷ []) ∷ count_frames d

read_counts : List Bytes → Dict CollectionState
read_counts (name ∷ (n ∷ []) ∷ fs) = (name, record { total_doc_count = n }) ∷ read_counts fs
read_counts _ = []

read_counts-count_frames : (d : Dict CollectionState) → read_counts (count_frames d) ≡ d
unfolding read_counts count_frames
read_counts-count_frames [] = refl
read_counts-count_frames ((name, c) ∷ d) = ground (arith, read_counts-count_frames d)

unfoldable pub flat_persistence : DatabaseStatePersistence → Bytes
unfolding framed count_frames
flat_persistence s = framed (
    s.addr
    ∷ (s.total_doc_count ∷ s.total_col_count ∷ s.doc_order ∷ [])
    ∷ count_frames s.collection_states)

persistence_of : List Bytes → Option DatabaseStatePersistence
unfolding read_counts
persistence_of (addr ∷ (docs ∷ cols ∷ order ∷ []) ∷ fs) = some (record {
  addr = addr;
  total_doc_count = docs;
  total_col_count = cols;
  collection_states = read_counts fs;
  doc_order = order;
})
persistence_of _ = none

unfoldable pub read_persistence : Bytes → Option DatabaseStatePersistence
unfolding unframed persistence_of
read_persistence b = persistence_of (unframed b)

read_persistence-flat_persistence :
    (s : DatabaseStatePersistence) → read_persistence (flat_persistence s) ≡ some s
unfolding read_persistence flat_persistence
read_persistence-flat_persistence s = ground (
  arith,
  unframe-frames (
      s.addr
      ∷ (s.total_doc_count ∷ s.total_col_count ∷ s.doc_order ∷ [])
      ∷ count_frames s.collection_states),
  read_counts-count_frames s.collection_states,
)

instance abbrev pub persistence_codec : Codec DatabaseStatePersistence
persistence_codec = record { encode = λ m. some (flat_persistence m); decode = read_persistence }

pub persistence_codec-IsCodec : IsCodec persistence_codec
persistence_codec-IsCodec = record {
  encoded = flat_persistence;
  encodes = λ m. refl;
  decodes = read_persistence-flat_persistence;
}

unfoldable pub flat_block : BlockState → Bytes
flat_block b = b.block ∷ b.order ∷ []

unfoldable pub read_block : Bytes → Option BlockState
read_block (block ∷ order ∷ []) = some (record { block = block; order = order })
read_block _ = none

instance abbrev pub collection_codec : Codec Collection
collection_codec = record { encode = λ m. some (flat_collection m); decode = read_collection }

instance abbrev pub database_codec : Codec DatabaseMessage
database_codec = record { encode = λ m. some (flat_database m); decode = read_database }

instance abbrev pub block_codec : Codec BlockState
block_codec = record { encode = λ m. some (flat_block m); decode = read_block }

pub collection_codec-IsCodec : IsCodec collection_codec
collection_codec-IsCodec = record {
  encoded = flat_collection;
  encodes = λ m. refl;
  decodes = read_collection-flat_collection;
}

pub database_codec-IsCodec : IsCodec database_codec
database_codec-IsCodec = record {
  encoded = flat_database;
  encodes = λ m. refl;
  decodes = read_database-flat_database;
}

pub block_codec-IsCodec : IsCodec block_codec
unfolding flat_block read_block
block_codec-IsCodec = record { encoded = flat_block; encodes = λ m. refl; decodes = λ m. refl }
