-- ===== src/System/Wallet.antt =====
-- The wallets: a key that is not there is made and written.
use rtstore.Base.{ℕ, Bool, true, false, Option}
use rtstore.Base.Bytes.{Bytes}
use rtstore.Base.Result.{rollup_error, arware_op_error, ok, ok_or}
use rtstore.Base.Exec.{Exec, pure, query, lift, map_err_m, ◌>>=◌, ◌>>◌}
use rtstore.Keys.{Files, Base64, KeyStoreConfig, has_key, write_key, get_key}
use rtstore.System.{SystemStoreConfig, SystemStore, on_files}

-- `Wallet` is ethers' `LocalWallet`, `Rsa` a private key and `Arweave` the client of Arweave.
-- `random_wallet` and `random_rsa` draw a key; the argument is the randomness.
pub record Wallets (Wallet Rsa Arweave : Type 0) : Type 0 where
  pub random_wallet : ℕ → Wallet
  pub signer_bytes : Wallet → Bytes
  pub from_bytes : Bytes → Option Wallet
  pub with_chain_id : ℕ → Wallet → Wallet
  pub address : Wallet → Bytes
  pub random_rsa : ℕ → Option Rsa
  pub to_pkcs8_der : Rsa → Option Bytes
  pub from_pkcs8_der : Bytes → Option Rsa
  pub wallet_address : Rsa → Option Bytes
  pub parse_url : Bytes → Option Bytes
  pub from_private_key : Rsa → Bytes → Option Arweave

abbrev pub key_store_config : SystemStoreConfig → KeyStoreConfig
key_store_config c = record { key_root_path = c.key_root_path }

module _ {Wallet Rsa Arweave Fs Sdb : Type 0} (w : Wallets Wallet Rsa Arweave) ⦃F : Files Fs⦄
    ⦃b : Base64⦄ (seed : ℕ) where
  abbrev pub evm_wallet_at : ℕ → Bool → Exec (SystemStore Fs Sdb) Wallet
  evm_wallet_at chain_id true = do
    bytes ← query (λ s. get_key (key_store_config s.config) s.config.evm_wallet_key s.files)
    wallet ← lift (ok_or (w.from_bytes bytes) rollup_error)
    pure (w.with_chain_id chain_id wallet)
  evm_wallet_at chain_id false = do
    let wallet = w.random_wallet seed
    (λ s.
        on_files
          (write_key (key_store_config s.config) s.config.evm_wallet_key (w.signer_bytes wallet)) s)
    pure (w.with_chain_id chain_id wallet)

  unfoldable pub get_evm_wallet : ℕ → Exec (SystemStore Fs Sdb) Wallet
  unfolding get_key write_key has_key
  get_evm_wallet chain_id = do
    found ← query (λ s. ok (has_key (key_store_config s.config) s.config.evm_wallet_key s.files))
    evm_wallet_at chain_id found

  unfoldable pub get_evm_address : Exec (SystemStore Fs Sdb) Bytes
  unfolding get_evm_wallet
  get_evm_address = do wallet ← get_evm_wallet 0; pure (w.address wallet)

  -- The key, read or made.
  abbrev pub rsa_key_at : Bool → Exec (SystemStore Fs Sdb) Rsa
  rsa_key_at true = do
    bytes ← query (λ s. get_key (key_store_config s.config) s.config.ar_wallet_key s.files)
    lift (ok_or (w.from_pkcs8_der bytes) arware_op_error)
  rsa_key_at false = do
    priv_key ← lift (ok_or (w.random_rsa seed) arware_op_error)
    doc ← lift (ok_or (w.to_pkcs8_der priv_key) arware_op_error)
    (λ s.
        on_files
          (map_err_m (write_key (key_store_config s.config) s.config.ar_wallet_key doc)
            arware_op_error)
          s)
    pure priv_key

  unfoldable pub rsa_key : Exec (SystemStore Fs Sdb) Rsa
  unfolding get_key write_key has_key
  rsa_key = do
    found ← query (λ s. ok (has_key (key_store_config s.config) s.config.ar_wallet_key s.files))
    rsa_key_at found

  unfoldable pub get_ar_address : Exec (SystemStore Fs Sdb) Bytes
  unfolding rsa_key
  get_ar_address = do priv_key ← rsa_key; lift (ok_or (w.wallet_address priv_key) arware_op_error)

  unfoldable pub get_ar_wallet : Bytes → Exec (SystemStore Fs Sdb) Arweave
  unfolding rsa_key
  get_ar_wallet url = do
    arweave_url ← lift (ok_or (w.parse_url url) arware_op_error)
    priv_key ← rsa_key
    lift (ok_or (w.from_private_key priv_key arweave_url) arware_op_error)
