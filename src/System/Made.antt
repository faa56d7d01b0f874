-- ===== src/System/Made.antt =====
-- The key of a wallet is made once, and no call replaces it.
use rtstore.Base.{ℕ, ◌≡◌, refl, ◌∙◌, Bool-cases, ◌⊎◌, inl, inr, none, some, arith, Option-cases}
use rtstore.Base.Bytes.{Bytes}
use rtstore.Base.Bytes.Order.{bytes_eq_refl}
use rtstore.Base.Result.{ok}
use rtstore.Keys.{Files, Base64, key_path, has_key, write_key}
use rtstore.Keys.Kept.{
  IsReliable, kept, after_write, has_key-kept, write_key-fresh, kept-after_write, get_key-kept,
  write_key-keeps,
}
use rtstore.System.{SystemStore}
use rtstore.System.Wallet.{
  Wallets, key_store_config, get_evm_wallet, get_evm_address, rsa_key, get_ar_address,
  get_ar_wallet,
}

-- The documented behaviour of base64 and of ethers' wallets.
pub record IsWallets {Wallet Rsa Arweave : Type 0} (w : Wallets Wallet Rsa Arweave) (b : Base64)
    : Type 0 where
  pub decode_encode : (x : Bytes) → b.decode (b.encode x) ≡ some x
  pub restores :
      (seed : ℕ)
      → w.from_bytes (w.signer_bytes (w.random_wallet seed)) ≡ some (w.random_wallet seed)
  pub same_address :
      (chain_id : ℕ) (x : Wallet) → w.address (w.with_chain_id chain_id x) ≡ w.address x

module _ {Wallet Rsa Arweave Fs Sdb : Type 0} (w : Wallets Wallet Rsa Arweave) ⦃F : Files Fs⦄
    ⦃b : Base64⦄ (up : IsReliable F) (law : IsWallets w b) where
  abbrev pub evm_path : SystemStore Fs Sdb → Bytes
  evm_path s = key_path (key_store_config s.config) s.config.evm_wallet_key

  -- The key file is there, and holds a wallet of this address.
  pub record HasWallet (a : Bytes) (s : SystemStore Fs Sdb) : Type 0 where
    pub text : Bytes
    pub secret : Bytes
    pub wallet : Wallet
    pub kept_text : up.content s.files (evm_path s) ≡ some text
    pub decoded : b.decode text ≡ some secret
    pub read_wallet : w.from_bytes secret ≡ some wallet
    pub address_lem : w.address wallet ≡ a

  pub HasWallet-files :
      (a : Bytes) (s : SystemStore Fs Sdb) (fs : Fs) (has : HasWallet a s)
      → up.content fs (evm_path s) ≡ some has.text
      → HasWallet a (record s { files = fs })
  HasWallet-files a s fs has there = record {
    text = has.text;
    secret = has.secret;
    wallet = has.wallet;
    kept_text = there;
    decoded = has.decoded;
    read_wallet = has.read_wallet;
    address_lem = has.address_lem;
  }

  pub get_evm_wallet-has :
      (seed chain_id : ℕ) (a : Bytes) (s : SystemStore Fs Sdb) (has : HasWallet a s)
      → get_evm_wallet w seed chain_id s ≡ (ok (w.with_chain_id chain_id has.wallet), s)
  unfolding get_evm_wallet
  get_evm_wallet-has seed chain_id a s has = ground (
    arith,
    has.kept_text,
    has.decoded,
    has.read_wallet,
    has_key-kept (key_store_config s.config) up s.config.evm_wallet_key s.files,
    get_key-kept (key_store_config s.config) up s.config.evm_wallet_key s.files has.kept_text,
  )

  get_evm_wallet-makes :
      (seed chain_id : ℕ) (s : SystemStore Fs Sdb)
      → kept (key_store_config s.config) up s.config.evm_wallet_key s.files ≡ none
      → get_evm_wallet w seed chain_id s ≡ (
        ok (w.with_chain_id chain_id (w.random_wallet seed)),
        record s {
          files =
              after_write
                (key_store_config s.config)
                up
                s.config.evm_wallet_key
                (w.signer_bytes (w.random_wallet seed))
                s.files;
        },
      )
  unfolding get_evm_wallet
  get_evm_wallet-makes seed chain_id s free =
      let secret = w.signer_bytes (w.random_wallet seed) in
      ground (
        arith,
        has_key-kept (key_store_config s.config) up s.config.evm_wallet_key s.files,
        write_key-fresh (key_store_config s.config) up s.config.evm_wallet_key secret s.files free,
      )

  pub get_evm_address-has :
      (seed : ℕ) (a : Bytes) (s : SystemStore Fs Sdb)
      → HasWallet a s
      → get_evm_address w seed s ≡ (ok a, s)
  unfolding get_evm_address
  get_evm_address-has seed a s has =
      ground
        (arith, get_evm_wallet-has seed 0 a s has, law.same_address 0 has.wallet, has.address_lem)

  abbrev pub made : ℕ → SystemStore Fs Sdb → SystemStore Fs Sdb
  made seed s = record s {
    files =
        after_write (key_store_config s.config) up s.config.evm_wallet_key
          (w.signer_bytes (w.random_wallet seed)) s.files;
  }

  pub get_evm_address-makes :
      (seed : ℕ) (s : SystemStore Fs Sdb)
      → kept (key_store_config s.config) up s.config.evm_wallet_key s.files ≡ none
      → get_evm_address w seed s ≡ (ok (w.address (w.random_wallet seed)), made seed s)
  unfolding get_evm_address
  get_evm_address-makes seed s free =
      ground (arith, get_evm_wallet-makes seed 0 s free, law.same_address 0 (w.random_wallet seed))

  pub made-HasWallet :
      (seed : ℕ) (s : SystemStore Fs Sdb)
      → kept (key_store_config s.config) up s.config.evm_wallet_key s.files ≡ none
      → HasWallet (w.address (w.random_wallet seed)) (get_evm_address w seed s).1
  made-HasWallet seed s free =
      let secret = w.signer_bytes (w.random_wallet seed) in
      rw (get_evm_address-makes seed s free) (record {
        text = b.encode secret;
        secret = secret;
        wallet = w.random_wallet seed;
        kept_text =
            kept-after_write (key_store_config s.config) up s.config.evm_wallet_key secret s.files
              (evm_path s)
            ∙ rw (bytes_eq_refl (evm_path s)) refl;
        decoded = law.decode_encode secret;
        read_wallet = law.restores seed;
        address_lem = refl;
      })

  pub get_ar_address-files :
      (seed : ℕ) (s : SystemStore Fs Sdb) → (get_ar_address w seed s).1 ≡ (rsa_key w seed s).1
  unfolding get_ar_address
  get_ar_address-files seed s = ground arith

  pub get_ar_wallet-files :
      (seed : ℕ) (url : Bytes) (s : SystemStore Fs Sdb)
      → ((get_ar_wallet w seed url s).1 ≡ s)
        ⊎ ((get_ar_wallet w seed url s).1 ≡ (rsa_key w seed s).1)
  unfolding get_ar_wallet
  get_ar_wallet-files seed url s = ground arith

  -- The files after a key was asked for: as before, or with one key written.
  rsa_key-files :
      (seed : ℕ) (s : SystemStore Fs Sdb)
      → ((rsa_key w seed s).1 ≡ s)
        ⊎ ((doc : Bytes) × ((rsa_key w seed s).1 ≡ record s {
          files = (write_key (key_store_config s.config) s.config.ar_wallet_key doc s.files).1;
        }))
  unfolding rsa_key
  rsa_key-files seed s =
      let config = key_store_config s.config in
      elim (Bool-cases (has_key config s.config.ar_wallet_key s.files)) [
        | inl found ↦ inl (ground arith)
        | inr absent ↦ elim (Option-cases (w.random_rsa seed)) [
          | inl bad ↦ inl (ground arith)
          | inr (key, drawn) ↦ elim (Option-cases (w.to_pkcs8_der key)) [
            | inl bad ↦ inl (ground arith)
            | inr (doc, coded) ↦ inr (doc, ground arith)
          ]
        ]
      ]

  pub rsa_key-keeps :
      (seed : ℕ) (a : Bytes) (s : SystemStore Fs Sdb)
      → HasWallet a s
      → HasWallet a (rsa_key w seed s).1
  rsa_key-keeps seed a s has = elim (rsa_key-files seed s) [
    | inl same ↦ rw same has
    | inr (doc, e) ↦
        let config = key_store_config s.config in
        let key = s.config.ar_wallet_key in
        rw e (
          HasWallet-files a s (write_key config key doc s.files).1 has
            (write_key-keeps config up key doc s.files (evm_path s) has.kept_text))
  ]
