-- ===== src/StorageKeys/CollectionKey.antt =====
-- The keys of collections, of src/storage/src/collection_key.rs.
use rtstore.Base.{
  ℕ, ◌≡◌, ap, sym, ◌∙◌, ◌++◌, arith, length, take, drop, take-append, drop-append, ltb,
  if◌then◌else◌,
}
use rtstore.Base.Bytes.{Bytes}
use rtstore.Base.Result.{invalid_collection_name_error, Result, ok, err}
use rtstore.Crypto.Address.{Db3Address, IsAddress}

abbrev pub max_collection_name : ℕ
max_collection_name = 20

unfoldable pub build_collection_key : Db3Address → Bytes → Result Bytes
build_collection_key db_addr name =
    if ltb max_collection_name (length name)
    then err invalid_collection_name_error
    else ok (db_addr.bytes ++ name)

accepted_key : (d : Db3Address) (n k : Bytes) → build_collection_key d n ≡ ok k → k ≡ d.bytes ++ n
unfolding build_collection_key
accepted_key d n k e = ground arith

cut : (a b m n : Bytes) → length a ≡ length b → a ++ m ≡ b ++ n → (a ≡ b) × (m ≡ n)
cut a b m n l e = (
  sym (take-append a m) ∙ ap (take (length a)) e ∙ ap (λ i. take i (b ++ n)) l ∙ take-append b n,
  sym (drop-append a m) ∙ ap (drop (length a)) e ∙ ap (λ i. drop i (b ++ n)) l ∙ drop-append b n,
)

-- Two collections with the same key are of the same database and have the same name: a key that was
-- accepted tells where the address ends.
pub build_collection_key_injective :
    (d e : Db3Address) (m n k : Bytes)
    → IsAddress d
    → IsAddress e
    → build_collection_key d m ≡ ok k
    → build_collection_key e n ≡ ok k
    → (d.bytes ≡ e.bytes) × (m ≡ n)
build_collection_key_injective d e m n k v w p q =
    cut d.bytes e.bytes m n (v.size ∙ sym w.size)
      (sym (accepted_key d m k p) ∙ accepted_key e n k q)
