-- ===== src/MutationStore/Gc.antt =====
-- What `gc_range_mutation` removes: the headers of its blocks, and no body.
use mathlib.Core.Path.{subst}
use rtstore.Base.{
  ℕ, ◌^◌, ◌<◌, ◌≡◌, ◌≢◌, refl, ap, Bool, true, false, ◌&&◌, Option, none, some, List, [], ◌∷◌, ◌++◌,
  arith, length, leb, ltb, if◌then◌else◌,
}
use rtstore.Base.Bytes.{Bytes, bytes_eq, be}
use rtstore.Base.Bytes.Order.{eq_of_bytes_eq}
use rtstore.Base.Result.{Db3Error, Result, ok, err, map_err, read_store_error, ◌>>=◌}
use rtstore.Engine.{Op, delete_range_cf, Engine, IsUp, Codec, batch_at}
use rtstore.Engine.Entries.{Entry, lookup}
use rtstore.Crypto.{Hex, IsHex}
use rtstore.Crypto.TxId
use rtstore.Crypto.TxId.{TxId, IsTxId, try_from_hex-ne-id}
use rtstore.Proto.{MutationHeader, MutationBody}
use rtstore.MutationStore.{Cf, cf_eq, block_store, tx_store, MutationStore, header_key}
use rtstore.MutationStore.Read.{
  push_found, take_header, get_range_mutations, get_record, get_mutation, get_mutation_header,
}
use rtstore.MutationStore.Mutations.{delete_bodies, gc_range_mutation}
use rtstore.MutationStore.Keys.{IsNumber, bytes_lt-header_key_block}
use rtstore.MutationStore.Range.{between, read_all, get_range_mutations-eq-read_all}

abbrev pub Mutations : Type 0
Mutations = List (MutationHeader × MutationBody)

-- The ids in the headers are texts, and no ids of 32 bytes.
abbrev pub AreTexts : Mutations → Type 0
AreTexts [] = Unit {0}
AreTexts ((m, mb) ∷ ms) = (length m.id ≢ 32) × AreTexts ms

abbrev pub OkTexts : Result Mutations → Type 0
OkTexts (ok ms) = AreTexts ms
OkTexts (err e) = Unit {0}

push_found-AreTexts :
    (m : MutationHeader) (r : Result (Option MutationBody)) (ms : Mutations)
    → length m.id ≢ 32
    → AreTexts ms
    → AreTexts (push_found m r ms)
unfolding push_found
push_found-AreTexts m (ok (some mb)) ms h g = (h, g)
push_found-AreTexts m (ok none) ms h g = g
push_found-AreTexts m (err e) ms h g = g

-- The deletes of texts leave every 32-byte key, and every other table, alone.
batch-delete_bodies :
    (ms : Mutations) (tail : List (Op Cf)) (key : Bytes) (o : Option Bytes)
    → AreTexts ms
    → length key ≡ 32
    → batch_at (delete_bodies ms ++ tail) tx_store key o ≡ batch_at tail tx_store key o
batch-delete_bodies [] tail key o h k = refl
batch-delete_bodies ((m, mb) ∷ ms) tail key o h k =
    ground (arith, batch-delete_bodies ms tail key o h.1 k, ap_length m.id key, h.0)
  where
    ap_length : (a b : Bytes) → bytes_eq a b ≡ true → length a ≡ length b
    ap_length a b e = ap length (eq_of_bytes_eq a b e)

batch-delete_bodies_block :
    (ms : Mutations) (tail : List (Op Cf)) (key : Bytes) (o : Option Bytes)
    → batch_at (delete_bodies ms ++ tail) block_store key o ≡ batch_at tail block_store key o
batch-delete_bodies_block [] tail key o = refl
batch-delete_bodies_block ((m, mb) ∷ ms) tail key o = batch-delete_bodies_block ms tail key o

module _ {Db : Type 0} ⦃E : Engine Cf Db⦄ (up : IsUp E) ⦃h : Hex⦄ ⦃ch : Codec MutationHeader⦄
    ⦃cb : Codec MutationBody⦄ where
  gc_ops : ℕ → ℕ → Mutations → List (Op Cf)
  gc_ops a b ms = delete_bodies ms ++ (delete_range_cf block_store (be 8 a) (be 8 b) ∷ [])

  -- The database after a collection: unchanged, or with the batch applied.
  gc-se :
      (a b : ℕ) (s : MutationStore Db)
      → a < b
      → (ms : Mutations) → get_range_mutations a b s ≡ ok ms
      → ((gc_range_mutation a b s).1.se ≡ up.applied s.se (gc_ops a b ms))
        × ((gc_range_mutation a b s).0 ≡ ok tt)
  unfolding gc_range_mutation gc_ops
  gc-se a b s lt ms e = (
    ground (
      arith,
      up.open_cf s.se tx_store,
      up.open_cf s.se block_store,
      up.writes s.se (gc_ops a b ms),
    ),
    ground (
      arith,
      up.open_cf s.se tx_store,
      up.open_cf s.se block_store,
      up.writes s.se (gc_ops a b ms),
    ),
  )

  gc_failed-se :
      (a b : ℕ) (s : MutationStore Db) (x : Db3Error)
      → get_range_mutations a b s ≡ err x
      → (gc_range_mutation a b s).1.se ≡ s.se
  unfolding gc_range_mutation
  gc_failed-se a b s x e = ground (arith, up.open_cf s.se tx_store)

  module _ (law : IsHex h) where
    texts_after :
        (m : MutationHeader) (g : TxId → Result (Option MutationBody)) (r : Result TxId)
        (rest : Result Mutations)
        → ((t : TxId) → r ≡ ok t → length m.id ≢ 32)
        → OkTexts rest
        → OkTexts (map_err r read_store_error >>= λ t. rest >>= λ ms. ok (push_found m (g t) ms))
    texts_after m g (err e) rest h k = tt
    texts_after m g (ok t) (err e) h k = tt
    texts_after m g (ok t) (ok ms) h k = push_found-AreTexts m (g t) ms (h t refl) k

    take_header-OkTexts :
        (o : Option MutationHeader) (rest : Result Mutations) (s : MutationStore Db)
        → OkTexts rest
        → OkTexts (take_header o rest s)
    unfolding take_header
    take_header-OkTexts none rest s k = k
    take_header-OkTexts (some m) rest s k =
        texts_after m (λ t. get_mutation t s) (TxId.try_from_hex m.id) rest
          (λ t e. try_from_hex-ne-id law m.id e) k

    read_all-OkTexts : (es : List Entry) (s : MutationStore Db) → OkTexts (read_all es s)
    unfolding read_all
    read_all-OkTexts [] s = tt
    read_all-OkTexts ((k, v) ∷ es) s =
        take_header-OkTexts (ch.decode v) (read_all es s) s (read_all-OkTexts es s)

    range-OkTexts : (a b : ℕ) (s : MutationStore Db) → OkTexts (get_range_mutations a b s)
    range-OkTexts a b s = rw (get_range_mutations-eq-read_all up a b s) (
        either (leb b a)
          (read_all (between (header_key a 0) (header_key b 0) (up.entries s.se block_store)) s)
          (read_all-OkTexts
            (between (header_key a 0) (header_key b 0) (up.entries s.se block_store)) s))
      where
        either :
            (t : Bool) (r : Result Mutations)
            → OkTexts r
            → OkTexts (if t then err read_store_error else r)
        either true r k = tt
        either false r k = k

    range-AreTexts :
        (a b : ℕ) (s : MutationStore Db) (ms : Mutations)
        → get_range_mutations a b s ≡ ok ms
        → AreTexts ms
    range-AreTexts a b s ms e = subst OkTexts e (range-OkTexts a b s)

    -- The bodies: the key of the delete is the text of the id, and bodies are stored under the id.
    body_after_gc :
        (a b : ℕ) (s : MutationStore Db) (ms : Mutations) (t : TxId)
        → get_range_mutations a b s ≡ ok ms
        → a < b
        → IsTxId t
        → get_mutation t (gc_range_mutation a b s).1 ≡ get_mutation t s
    unfolding get_mutation get_record gc_ops
    body_after_gc a b s ms t e lt v = rw ((gc-se a b s lt ms e).0) (
        ground (
          arith,
          up.open_cf (up.applied s.se (gc_ops a b ms)) tx_store,
          up.reads (up.applied s.se (gc_ops a b ms)) tx_store t.bytes,
          up.written s.se (gc_ops a b ms) tx_store t.bytes,
          batch-delete_bodies ms (delete_range_cf block_store (be 8 a) (be 8 b) ∷ []) t.bytes
              (lookup t.bytes (up.entries s.se tx_store)) (range-AreTexts a b s ms e) v.size,
          up.open_cf s.se tx_store,
          up.reads s.se tx_store t.bytes,
        ))

  -- The headers of the collected blocks are gone, and all others stay.
  header_after_gc :
      (a b : ℕ) (s : MutationStore Db) (ms : Mutations) (blk ord : ℕ)
      → get_range_mutations a b s ≡ ok ms
      → a < b
      → a < 256 ^ 8
      → b < 256 ^ 8
      → IsNumber blk ord
      → get_mutation_header blk ord (gc_range_mutation a b s).1
        ≡ (if leb a blk && ltb blk b then ok none else get_mutation_header blk ord s)
  unfolding get_mutation_header get_record gc_ops
  header_after_gc a b s ms blk ord e lt ha hb n = rw ((gc-se a b s lt ms e).0) (
      ground (
        arith,
        up.open_cf (up.applied s.se (gc_ops a b ms)) block_store,
        up.reads (up.applied s.se (gc_ops a b ms)) block_store (header_key blk ord),
        up.written s.se (gc_ops a b ms) block_store (header_key blk ord),
        batch-delete_bodies_block ms (delete_range_cf block_store (be 8 a) (be 8 b) ∷ [])
            (header_key blk ord) (lookup (header_key blk ord) (up.entries s.se block_store)),
        up.open_cf s.se block_store,
        up.reads s.se block_store (header_key blk ord),
        bytes_lt-header_key_block blk ord a n ha,
        bytes_lt-header_key_block blk ord b n hb,
      ))

  -- On an engine that is up, a collection of the blocks from block_start up to block_end that could
  -- read its mutations succeeds. The headers of those blocks are gone and the other headers are what
  -- they were. The body of every mutation is still there, those of the collected blocks included:
  -- the deletes use the text of an id as the key, and bodies are stored under the bytes of the id.
  pub gc_range_mutation_effect :
      (law : IsHex h) (block_start block_end : ℕ) (s : MutationStore Db) (ms : Mutations) (b o : ℕ)
      (t : TxId)
      → block_start < block_end
      → block_end < 256 ^ 8
      → get_range_mutations block_start block_end s ≡ ok ms
      → IsNumber b o
      → IsTxId t
      → ((gc_range_mutation block_start block_end s).0 ≡ ok tt)
        × (get_mutation_header b o (gc_range_mutation block_start block_end s).1
            ≡ (if leb block_start b && ltb b block_end then ok none else get_mutation_header b o s))
        × (get_mutation t (gc_range_mutation block_start block_end s).1 ≡ get_mutation t s)
  gc_range_mutation_effect law start end_ s ms b o t lt fits e n v = (
    (gc-se start end_ s lt ms e).1,
    header_after_gc start end_ s ms b o e lt (omega arith) fits n,
    body_after_gc law start end_ s ms t e lt v,
  )
