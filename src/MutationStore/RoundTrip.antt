-- ===== src/MutationStore/RoundTrip.antt =====
-- What `add_mutation` stores, and what reading finds afterwards.
use rtstore.Base.{ℕ, ◌%◌, ◌^◌, ◌≡◌, ◌&&◌, some, List, [], ◌∷◌, arith, length, ◌==◌, if◌then◌else◌}
use rtstore.Base.Bytes.{bytes_eq}
use rtstore.Base.Result.{ok}
use rtstore.Engine.{Op, put_cf, Engine, IsUp, Codec, IsCodec}
use rtstore.Crypto.{Hex, Sha3}
use rtstore.Crypto.TxId
use rtstore.Crypto.TxId.{TxId}
use rtstore.Proto.{MutationHeader, MutationBody}
use rtstore.MutationStore.{Cf, cf_eq, block_store, tx_store, MutationStore, header_key}
use rtstore.MutationStore.Read.{get_record, get_mutation, get_mutation_header}
use rtstore.MutationStore.Mutations.{Submission, body_of, header_of, add_mutation}
use rtstore.MutationStore.Keys.{IsNumber, bytes_eq-header_key}

module _ {Db : Type 0} ⦃E : Engine Cf Db⦄ (up : IsUp E) ⦃sha : Sha3⦄ ⦃h : Hex⦄
    ⦃ch : Codec MutationHeader⦄ ⦃cb : Codec MutationBody⦄ (lh : IsCodec ch) (lb : IsCodec cb) where
  abbrev pub tx_of : Submission → TxId
  tx_of m = TxId.of_pair m.payload m.signature

  -- The header that is stored with a submission.
  abbrev pub stored_header : Submission → MutationHeader
  stored_header m = header_of m (TxId.to_hex (tx_of m)) (length (lb.encoded (body_of m)) % 2 ^ 32)

  abbrev added_ops : Submission → List (Op Cf)
  added_ops m =
      put_cf tx_store (tx_of m).bytes (lb.encoded (body_of m))
      ∷ put_cf block_store (header_key m.block m.order) (lh.encoded (stored_header m))
      ∷ []

  abbrev pub added : Submission → MutationStore Db → MutationStore Db
  added m s = (add_mutation m s).1

  added-se :
      (m : Submission) (s : MutationStore Db) → (added m s).se ≡ up.applied s.se (added_ops m)
  unfolding add_mutation
  added-se m s = ground (
    arith,
    up.open_cf s.se tx_store,
    up.open_cf s.se block_store,
    lb.encodes (body_of m),
    lh.encodes (stored_header m),
    up.writes s.se (added_ops m),
  )

  pub add_mutation_answers :
      (m : Submission) (s : MutationStore Db)
      → (add_mutation m s).0 ≡ ok (TxId.to_hex (tx_of m), m.block, m.order)
  unfolding add_mutation
  add_mutation_answers m s = ground (
    arith,
    up.open_cf s.se tx_store,
    up.open_cf s.se block_store,
    lb.encodes (body_of m),
    lh.encodes (stored_header m),
    up.writes s.se (added_ops m),
  )

  pub get_mutation-added :
      (m : Submission) (t : TxId) (s : MutationStore Db)
      → get_mutation t (added m s)
        ≡ (if bytes_eq (tx_of m).bytes t.bytes then ok (some (body_of m)) else get_mutation t s)
  unfolding get_mutation get_record
  get_mutation-added m t s = rw added-se (
      ground (
        arith,
        up.open_cf (up.applied s.se (added_ops m)) tx_store,
        up.reads (up.applied s.se (added_ops m)) tx_store t.bytes,
        up.written s.se (added_ops m) tx_store t.bytes,
        up.open_cf s.se tx_store,
        up.reads s.se tx_store t.bytes,
        lb.decodes (body_of m),
      ))

  pub get_mutation_header-added :
      (m : Submission) (b o : ℕ) (s : MutationStore Db)
      → IsNumber m.block m.order
      → IsNumber b o
      → get_mutation_header b o (added m s) ≡ (
          if (m.block == b) && (m.order == o)
          then ok (some (stored_header m))
          else get_mutation_header b o s)
  unfolding get_mutation_header get_record
  get_mutation_header-added m b o s fits fits' = rw added-se (
      ground (
        arith,
        up.open_cf (up.applied s.se (added_ops m)) block_store,
        up.reads (up.applied s.se (added_ops m)) block_store (header_key b o),
        up.written s.se (added_ops m) block_store (header_key b o),
        up.open_cf s.se block_store,
        up.reads s.se block_store (header_key b o),
        bytes_eq-header_key m.block m.order b o fits fits',
        lh.decodes (stored_header m),
      ))

  -- On an engine that is up, `add_mutation` succeeds with the id and the number that it was given.
  -- Afterwards the mutation's body is found under its id and its header under its number; what is
  -- found under every other id and every other number is what was found before.
  pub add_mutation_stores :
      (m : Submission) (t : TxId) (b o : ℕ) (s : MutationStore Db)
      → IsNumber m.block m.order
      → IsNumber b o
      → ((add_mutation m s).0 ≡ ok (TxId.to_hex (tx_of m), m.block, m.order))
        × (get_mutation t (added m s) ≡ (
            if bytes_eq (tx_of m).bytes t.bytes then ok (some (body_of m)) else get_mutation t s))
        × (get_mutation_header b o (added m s) ≡ (
            if (m.block == b) && (m.order == o)
            then ok (some (stored_header m))
            else get_mutation_header b o s))
  add_mutation_stores m t b o s fits fits' = (
    add_mutation_answers m s,
    get_mutation-added m t s,
    get_mutation_header-added m b o s fits fits',
  )
