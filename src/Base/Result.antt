-- ===== src/Base/Result.antt =====
-- `DB3Error` of src/error/src/lib.rs, and Rust's `Result`.
-- The texts of the messages are not modelled, except where an error names a database or collection.
use mathlib.Core.Path.{◌≡◌, refl}
use mathlib.Core.Logic.{◌⊎◌, inl, inr}
use mathlib.Core.Option.{Option, none, some}
use rtstore.Base.Bytes.{Bytes}

pub data Db3Error : Type 0 where
  invalid_address load_key_pair_error sign_error verify_failed : Db3Error
  invalid_signature key_codec_error owner_verify_failed apply_mutation_error : Db3Error
  submit_mutation_error submit_request_error apply_bill_error bill_query_error : Db3Error
  apply_account_error apply_commit_error apply_database_error apply_document_error : Db3Error
  get_commit_error get_account_error out_of_gas_error bill_sdk_error : Db3Error
  hash_codec_error query_kv_error query_session_status_error query_session_verify_error : Db3Error
  query_database_error invalid_signer signature_key_gen_error sign_message_error : Db3Error
  document_decode_error query_document_error invalid_op_entry_id_bytes invalid_document_id_bytes :
      Db3Error
  invalid_document_bytes invalid_collection_id_bytes invalid_index_id_bytes document_not_exist :
      Db3Error
  document_modified_permission_error store_event_error store_faucet_error invalid_filter_value :
      Db3Error
  invalid_filter_op invalid_filter_type index_not_found_for_filed_filter invalid_filter_json :
      Db3Error
  invalid_json request_faucet_error fetch_block_error open_store_error : Db3Error
  write_store_error read_store_error rollup_error arware_op_error : Db3Error
  invalid_collection_name_error invalid_mutation_error invalid_key_path_error invalid_ar_url_error :
      Db3Error
  invalid_desc_error database_permission_denied collection_permission_denied : Db3Error
  database_not_found database_already_exist : Bytes → Db3Error
  collection_not_found collection_already_exist : Bytes → Bytes → Db3Error

pub data Result {ℓ} (A : Type ℓ) : Type ℓ where
  ok : A → Result A
  err : Db3Error → Result A

-- `o.ok_or(e)`, and `r.map_err(|_| e)` for a call outside the repository.
abbrev pub ok_or {ℓ} : {A : Type ℓ} → Option A → Db3Error → Result A
ok_or none e = err e
ok_or (some a) e = ok a

-- `r.map_err(|_| e)`.
abbrev pub map_err {ℓ} : {A : Type ℓ} → Result A → Db3Error → Result A
map_err (ok a) e = ok a
map_err (err _) e = err e

-- `r?` between functions that change no object.
infixl 5 ◌>>=◌
abbrev pub ◌>>=◌ {ℓ κ} : {A : Type ℓ} {B : Type κ} → Result A → (A → Result B) → Result B
ok a >>= f = f a
err e >>= f = err e

pub Result-cases {ℓ} :
    {A : Type ℓ} (r : Result A) → ((e : Db3Error) × (r ≡ err e)) ⊎ ((a : A) × (r ≡ ok a))
Result-cases (ok a) = inr (a, refl)
Result-cases (err e) = inl (e, refl)
