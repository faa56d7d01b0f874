-- ===== src/System/Stable.antt =====
-- The wallet of a node is made once: its address stays.
use rtstore.Base.{ℕ, ◌≡◌, inl, inr, none, List, [], ◌∷◌, arith}
use rtstore.Base.Bytes.{Bytes}
use rtstore.Base.Result.{ok}
use rtstore.Keys.{Files, Base64}
use rtstore.Keys.Kept.{IsReliable, kept}
use rtstore.System.{SystemStore}
use rtstore.System.Wallet.{
  Wallets, key_store_config, get_evm_wallet, get_evm_address, get_ar_address, get_ar_wallet,
}
use rtstore.System.Made.{
  IsWallets, HasWallet, get_evm_wallet-has, get_evm_address-has, get_evm_address-makes,
  made-HasWallet, get_ar_address-files, get_ar_wallet-files, rsa_key-keeps,
}

-- A call of the store that needs a wallet, with its randomness.
pub data Call : Type 0 where
  evm_address : ℕ → Call
  evm_wallet : ℕ → ℕ → Call
  ar_address : ℕ → Call
  ar_wallet : ℕ → Bytes → Call

module _ {Wallet Rsa Arweave Fs Sdb : Type 0} (w : Wallets Wallet Rsa Arweave) ⦃F : Files Fs⦄
    ⦃b : Base64⦄ where
  unfoldable pub after_call : Call → SystemStore Fs Sdb → SystemStore Fs Sdb
  unfolding get_evm_address get_evm_wallet get_ar_address get_ar_wallet
  after_call (evm_address seed) s = (get_evm_address w seed s).1
  after_call (evm_wallet seed chain_id) s = (get_evm_wallet w seed chain_id s).1
  after_call (ar_address seed) s = (get_ar_address w seed s).1
  after_call (ar_wallet seed url) s = (get_ar_wallet w seed url s).1

  unfoldable pub after_calls : List Call → SystemStore Fs Sdb → SystemStore Fs Sdb
  unfolding after_call
  after_calls [] s = s
  after_calls (k ∷ ks) s = after_calls ks (after_call k s)

  module _ (up : IsReliable F) (law : IsWallets w b) where
    after_call-keeps :
        (k : Call) (a : Bytes) (s : SystemStore Fs Sdb)
        → HasWallet w up law a s
        → HasWallet w up law a (after_call k s)
    unfolding after_call
    after_call-keeps (evm_address seed) a s has =
        rw (after_call, get_evm_address-has w up law seed a s has) has
    after_call-keeps (evm_wallet seed chain_id) a s has =
        rw (after_call, get_evm_wallet-has w up law seed chain_id a s has) has
    after_call-keeps (ar_address seed) a s has =
        rw (after_call, get_ar_address-files w up law seed s) (rsa_key-keeps w up law seed a s has)
    after_call-keeps (ar_wallet seed url) a s has = elim (get_ar_wallet-files w up law seed url s) [
      | inl same ↦ rw (after_call, same) has
      | inr e ↦ rw (after_call, e) (rsa_key-keeps w up law seed a s has)
    ]

    after_calls-keeps :
        (ks : List Call) (a : Bytes) (s : SystemStore Fs Sdb)
        → HasWallet w up law a s
        → HasWallet w up law a (after_calls ks s)
    unfolding after_calls
    after_calls-keeps [] a s has = has
    after_calls-keeps (k ∷ ks) a s has =
        after_calls-keeps ks a (after_call k s) (after_call-keeps k a s has)

    -- On a reliable file system, a node without a wallet makes one when its address is first asked
    -- for, and gives the same address ever after, whatever is drawn at random and whichever
    -- wallets and addresses are asked for in between.
    pub wallet_stays :
        (ks : List Call) (seed seed' : ℕ) (s : SystemStore Fs Sdb)
        → kept (key_store_config s.config) up s.config.evm_wallet_key s.files ≡ none
        → ((get_evm_address w seed s).0 ≡ ok (w.address (w.random_wallet seed)))
          × ((get_evm_address w seed' (after_calls ks (get_evm_address w seed s).1)).0
              ≡ ok (w.address (w.random_wallet seed)))
    wallet_stays ks seed seed' s free =
        let a = w.address (w.random_wallet seed) in
        let s' = after_calls ks (get_evm_address w seed s).1 in
        let has =
          after_calls-keeps ks a (get_evm_address w seed s).1
            (made-HasWallet w up law seed s free) in
        (
          ground (arith, get_evm_address-makes w up law seed s free),
          ground (arith, get_evm_address-has w up law seed' a s' has),
        )
