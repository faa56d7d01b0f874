-- ===== src/DbStore/Owners.antt =====
-- Who owns which document: the owner store of DBStoreV2, seen as a function from a database and an id
-- to the owner.
use rtstore.Base.{
  ℕ, ◌<◌, ◌^◌, ◌≡◌, refl, ◌∙◌, sym, Bool, true, false, ◌&&◌, ◌||◌, Option, none, some, List, [],
  ◌∷◌, arith, ◌==◌, if◌then◌else◌, All,
}
use rtstore.Base.Bytes.{Bytes, be, bytes_eq}
use rtstore.Base.Bytes.BigEndian.{bytes_eq-be}
use rtstore.Base.Bytes.Order.{bytes_eq-append}
use rtstore.Base.Result.{owner_verify_failed, ok, err}
use rtstore.Engine.{batch_at, Engine, IsUp}
use rtstore.Engine.Entries.{lookup}
use rtstore.Crypto.Address.{Db3Address, IsAddress}
use rtstore.StorageKeys.DbDocKey
use rtstore.DbStore.{Cf, cf_eq, doc_owner_store_cf, DbStore}
use rtstore.DbStore.Read.{verify_docs_ownership, verify_docs}
use rtstore.DbStore.Write.{doc_key, own_ops, disown_ops}

unfoldable pub contains : ℕ → List ℕ → Bool
contains id [] = false
contains id (i ∷ is) = (i == id) || contains id is

abbrev pub AreIds : List ℕ → Type 0
AreIds = All (λ i. i < 2 ^ 64)

-- Two documents have the same key exactly if they have the same database and id.
bytes_eq-doc_key :
    (d e : Db3Address) (i j : ℕ)
    → IsAddress d
    → IsAddress e
    → i < 2 ^ 64
    → j < 2 ^ 64
    → bytes_eq (doc_key d i) (doc_key e j) ≡ (bytes_eq d.bytes e.bytes && (i == j))
unfolding DbDocKey.encode bytes_eq
bytes_eq-doc_key d e i j v w fits fits' = ground (
  arith,
  bytes_eq-append d.bytes e.bytes (be 8 i) (be 8 j) (v.size ∙ sym w.size),
  bytes_eq-be 8 i j (omega arith) (omega arith),
)

-- One of the documents of the batch.
abbrev pub same_doc : Db3Address → List ℕ → Db3Address → ℕ → Bool
same_doc db ids e j = bytes_eq db.bytes e.bytes && contains j ids

pub batch-own_ops :
    (sender db : Db3Address) (ids : List ℕ) (e : Db3Address) (j : ℕ) (o : Option Bytes)
    → IsAddress db
    → IsAddress e
    → AreIds ids
    → j < 2 ^ 64
    → batch_at (own_ops sender db ids) doc_owner_store_cf (doc_key e j) o
      ≡ (if same_doc db ids e j then some sender.bytes else o)
unfolding own_ops contains
batch-own_ops sender db [] e j o v w fit fits = ground arith
batch-own_ops sender db (i ∷ is) e j o v w fit fits = ground (
  arith,
  bytes_eq-doc_key db e i j v w fit.0 fits,
  batch-own_ops sender db is e j (some sender.bytes) v w fit.1 fits,
  batch-own_ops sender db is e j o v w fit.1 fits,
)

pub batch-disown_ops :
    (db : Db3Address) (ids : List ℕ) (e : Db3Address) (j : ℕ) (o : Option Bytes)
    → IsAddress db
    → IsAddress e
    → AreIds ids
    → j < 2 ^ 64
    → batch_at (disown_ops db ids) doc_owner_store_cf (doc_key e j) o
      ≡ (if same_doc db ids e j then none else o)
unfolding disown_ops contains
batch-disown_ops db [] e j o v w fit fits = ground arith
batch-disown_ops db (i ∷ is) e j o v w fit fits = ground (
  arith,
  bytes_eq-doc_key db e i j v w fit.0 fits,
  batch-disown_ops db is e j none v w fit.1 fits,
  batch-disown_ops db is e j o v w fit.1 fits,
)

abbrev pub is_owned : Db3Address → Option Bytes → Bool
is_owned sender none = false
is_owned sender (some o) = bytes_eq o sender.bytes

module _ {Db Docs : Type 0} ⦃E : Engine Cf Db⦄ (up : IsUp E) where
  -- The owner of a document.
  abbrev pub owner : DbStore Db Docs → Db3Address → ℕ → Option Bytes
  owner s db id = lookup (doc_key db id) (up.entries s.se doc_owner_store_cf)

  unfoldable pub owns_all : Db3Address → Db3Address → List ℕ → DbStore Db Docs → Bool
  owns_all sender db [] s = true
  owns_all sender db (id ∷ ids) s = is_owned sender (owner s db id) && owns_all sender db ids s

  verify_docs-answers :
      (sender db : Db3Address) (ids : List ℕ) (s : DbStore Db Docs)
      → verify_docs sender db ids s
        ≡ (if owns_all sender db ids s then ok tt else err owner_verify_failed)
  unfolding verify_docs owns_all
  verify_docs-answers sender db [] s = refl
  verify_docs-answers sender db (id ∷ ids) s =
      ground (
        arith,
        up.reads s.se doc_owner_store_cf (doc_key db id),
        verify_docs-answers sender db ids s,
      )

  -- On an engine that is up, the check of the owner of a mutation's documents passes exactly if the
  -- sender owns every one of them, and fails otherwise with the one error for that, for any ids.
  pub verify_docs_ownership-answers :
      (sender db : Db3Address) (ids : List ℕ) (s : DbStore Db Docs)
      → verify_docs_ownership sender db ids s
        ≡ (if owns_all sender db ids s then ok tt else err owner_verify_failed)
  unfolding verify_docs_ownership
  verify_docs_ownership-answers sender db ids s =
      ground (arith, up.open_cf s.se doc_owner_store_cf, verify_docs-answers sender db ids s)
