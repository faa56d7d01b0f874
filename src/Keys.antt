-- ===== src/Keys.antt =====
-- KeyStore, of src/storage/src/key_store.rs: secrets in files, one to a key, in base64. The file
-- system and base64 are the interfaces `Files` and `Base64`.
pub mod Kept
pub mod Memory
use rtstore.Base.{
  ◌≡◌, Bool, true, false, not, Option, none, some, List, [], ◌∷◌, ◌++◌, ◌==◌, if◌then◌else◌,
}
use rtstore.Base.Bytes.{Bytes, bytes_eq}
use rtstore.Base.Text.{codes}
use rtstore.Base.Result.{read_store_error, write_store_error, Result, ok, err, ok_or, ◌>>=◌}
use rtstore.Base.Exec.{Exec, pure, raise}

-- `create` empties the file, `write_all` adds to its end; what it wrote before an error stays.
pub record Files (Fs : Type 0) : Type 0 where
  pub exists : Fs → Bytes → Bool
  pub create : Fs → Bytes → Option Fs
  pub write_all : Fs → Bytes → Bytes → Bool × Fs
  pub sync_all : Fs → Bytes → Bool × Fs
  pub read : Fs → Bytes → Option Bytes

-- `decode` wants UTF-8, too.
pub record Base64 : Type 0 where
  pub encode : Bytes → Bytes
  pub decode : Bytes → Option Bytes

pub record KeyStoreConfig : Type 0 where
  pub key_root_path : Bytes

abbrev last_is_slash : Bytes → Bool
last_is_slash [] = true
last_is_slash (c ∷ []) = c == b'/'
last_is_slash (c ∷ d ∷ cs) = last_is_slash (d ∷ cs)

-- `PathBuf::push`: an absolute path replaces, and a separator is put where there is none.
abbrev pub push : Bytes → Bytes → Bytes
push path [] = if last_is_slash path then path else path ++ (b'/' ∷ [])
push path (c ∷ cs) =
    if c == b'/'
    then c ∷ cs
    else if last_is_slash path
    then path ++ (c ∷ cs)
    else path ++ (b'/' ∷ (c ∷ cs))

-- The file of a key: `key_root_path + '/' + key.secret`.
unfoldable pub key_path : KeyStoreConfig → Bytes → Bytes
key_path config key = push config.key_root_path (key ++ codes ".secret")

module _ {Fs : Type 0} ⦃F : Files Fs⦄ ⦃b : Base64⦄ (config : KeyStoreConfig) where
  unfoldable pub has_key : Bytes → Fs → Bool
  unfolding key_path
  has_key key fs = F.exists fs (key_path config key)

  abbrev then_write : Option Fs → (Fs → Result (Unit {0}) × Fs) → Fs → Result (Unit {0}) × Fs
  then_write none f fs = (err write_store_error, fs)
  then_write (some fs') f fs = f fs'

  abbrev written_to : Bool × Fs → (Fs → Result (Unit {0}) × Fs) → Result (Unit {0}) × Fs
  written_to (false, fs) f = (err write_store_error, fs)
  written_to (true, fs) f = f fs

  unfoldable pub write_key : Bytes → Bytes → Exec Fs (Unit {0})
  unfolding has_key key_path
  write_key key secret fs =
      let path = key_path config key in
      let b64_str = b.encode secret in
      if has_key key fs
      then (err write_store_error, fs)
      else then_write (F.create fs path)
          (λ created.
            written_to (F.write_all created path b64_str)
              λ written. written_to (F.sync_all written path) (λ synced. (ok tt, synced)))
          fs

  unfoldable pub get_key : Bytes → Fs → Result Bytes
  unfolding has_key key_path
  get_key key fs = if not (has_key key fs) then err read_store_error else do
    b64_str ← ok_or (F.read fs (key_path config key)) read_store_error
    ok_or (b.decode b64_str) read_store_error
