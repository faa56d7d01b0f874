-- ===== src/Node/Accepted.antt =====
-- What the node has stored when it answers.
use rtstore.Base.{ℕ, ◌≡◌, some, List}
use rtstore.Base.Result.{ok}
use rtstore.Engine.{Engine, Codec}
use rtstore.Crypto.{Hex, Sha3}
use rtstore.Crypto.TxId
use rtstore.Crypto.TxId.{of_pair}
use rtstore.Proto.{MutationHeader, MutationBody}
use rtstore.Proto.Mutation.{ExtraItem}
use rtstore.MutationStore
use rtstore.MutationStore.{MutationStore, cf_eq}
use rtstore.MutationStore.Read.{get_mutation, get_mutation_header}
use rtstore.StateStore
use rtstore.StateStore.{StateStore}
use rtstore.DbStore
use rtstore.DbStore.{DbStore}
use rtstore.Node.{Status, SendMutationRequest, StorageNode}
use rtstore.Node.Send.{Reply, status, response, bad_nonce, accepted}

module _ {Mdb Sdb Ddb Docs : Type 0} where
  -- The node did not take the mutation in: the tables of the mutations are the same.
  abbrev pub IsLeft : StorageNode Mdb Sdb Ddb Docs → Reply × StorageNode Mdb Sdb Ddb Docs → Type 0
  IsLeft n (reply, m) = ((x : Status) × (reply ≡ status x)) × (m.storage.se ≡ n.storage.se)

  -- The nonce was not granted, and nothing has changed.
  abbrev pub IsRefused :
      StorageNode Mdb Sdb Ddb Docs → Reply × StorageNode Mdb Sdb Ddb Docs → Type 0
  IsRefused n (reply, m) = (reply ≡ response bad_nonce) × (m ≡ n)

  module _ ⦃M : Engine MutationStore.Cf Mdb⦄ ⦃h : Hex⦄ ⦃sha : Sha3⦄ ⦃ch : Codec MutationHeader⦄
      ⦃cm : Codec MutationBody⦄ where
    -- The node took the mutation in: the reply names its id and its number, and both find it.
    abbrev pub IsTaken : SendMutationRequest → Reply × StorageNode Mdb Sdb Ddb Docs → Type 0
    IsTaken r (reply, m) =
        (items : List ExtraItem) × (block : ℕ) × (order : ℕ) × (header : MutationHeader) × (reply
          ≡ response (accepted (TxId.to_hex (of_pair r.payload r.signature)) items block order))
        × (get_mutation (of_pair r.payload r.signature) m.storage
            ≡ ok (some (record { payload = r.payload; signature = r.signature })))
        × (get_mutation_header block order m.storage ≡ ok (some header))
        × (header.id ≡ TxId.to_hex (of_pair r.payload r.signature))
