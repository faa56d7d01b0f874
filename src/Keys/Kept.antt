-- ===== src/Keys/Kept.antt =====
-- What a reliable file system makes of a key store: a key is written once, and stays.
use rtstore.Base.{
  ◌≡◌, Bool, true, false, Option, none, some, [], ◌++◌, arith, map_option, Option-cases, inl, inr,
  if◌then◌else◌,
}
use rtstore.Base.Bytes.{Bytes, bytes_eq}
use rtstore.Base.Bytes.Order.{eq_of_bytes_eq}
use rtstore.Base.Result.{read_store_error, write_store_error, ok, err, ok_or}
use rtstore.Keys.{Files, Base64, KeyStoreConfig, key_path, has_key, write_key, get_key}

abbrev pub is_some : {A : Type 0} → Option A → Bool
is_some none = false
is_some (some a) = true

-- The documented behaviour of a file system on which no call fails.
pub record IsReliable {Fs : Type 0} (F : Files Fs) : Type 0 where
  pub content : Fs → Bytes → Option Bytes
  pub created : Fs → Bytes → Fs
  pub written : Fs → Bytes → Bytes → Fs
  pub exists_lem : (fs : Fs) (p : Bytes) → F.exists fs p ≡ is_some (content fs p)
  pub reads : (fs : Fs) (p : Bytes) → F.read fs p ≡ content fs p
  pub creates : (fs : Fs) (p : Bytes) → F.create fs p ≡ some (created fs p)
  pub writes : (fs : Fs) (p b : Bytes) → F.write_all fs p b ≡ (true, written fs p b)
  pub syncs : (fs : Fs) (p : Bytes) → F.sync_all fs p ≡ (true, fs)
  pub content_created :
      (fs : Fs) (p q : Bytes)
      → content (created fs p) q ≡ (if bytes_eq p q then some [] else content fs q)
  pub content_written :
      (fs : Fs) (p b q : Bytes)
      → content (written fs p b) q
        ≡ (if bytes_eq p q then map_option (λ c. c ++ b) (content fs q) else content fs q)

module _ {Fs : Type 0} ⦃F : Files Fs⦄ ⦃b : Base64⦄ (config : KeyStoreConfig)
    (up : IsReliable F) where
  -- The file of a key.
  abbrev pub kept : Bytes → Fs → Option Bytes
  kept key fs = up.content fs (key_path config key)

  abbrev pub after_write : Bytes → Bytes → Fs → Fs
  after_write key secret fs =
      let path = key_path config key in up.written (up.created fs path) path (b.encode secret)

  pub has_key-kept : (key : Bytes) (fs : Fs) → has_key config key fs ≡ is_some (kept key fs)
  unfolding has_key
  has_key-kept key fs = up.exists_lem fs (key_path config key)

  pub write_key-fresh :
      (key secret : Bytes) (fs : Fs)
      → kept key fs ≡ none
      → write_key config key secret fs ≡ (ok tt, after_write key secret fs)
  unfolding write_key
  write_key-fresh key secret fs free =
      let path = key_path config key in
      let here = up.created fs path in
      ground (
        arith,
        has_key-kept key fs,
        up.creates fs path,
        up.writes here path (b.encode secret),
        up.syncs (up.written here path (b.encode secret)) path,
      )

  pub write_key-taken :
      (key secret : Bytes) (fs : Fs) {c : Bytes}
      → kept key fs ≡ some c
      → write_key config key secret fs ≡ (err write_store_error, fs)
  unfolding write_key
  write_key-taken key secret fs taken = ground (arith, has_key-kept key fs)

  -- A key that is written for the first time is the only file that changes.
  pub kept-after_write :
      (key secret : Bytes) (fs : Fs) (path : Bytes)
      → up.content (after_write key secret fs) path ≡ (
          if bytes_eq (key_path config key) path
          then some (b.encode secret)
          else up.content fs path)
  kept-after_write key secret fs path =
      let mine = key_path config key in
      ground (
        arith,
        up.content_written (up.created fs mine) mine (b.encode secret) path,
        up.content_created fs mine path,
      )

  pub get_key-kept :
      (key : Bytes) (fs : Fs) {c : Bytes}
      → kept key fs ≡ some c
      → get_key config key fs ≡ ok_or (b.decode c) read_store_error
  unfolding get_key
  get_key-kept key fs {c} taken =
      ground (arith, has_key-kept key fs, up.reads fs (key_path config key))

  -- No write changes a file that is there.
  pub write_key-keeps :
      (key secret : Bytes) (fs : Fs) (path : Bytes) {text : Bytes}
      → up.content fs path ≡ some text
      → up.content (write_key config key secret fs).1 path ≡ some text
  write_key-keeps key secret fs path there = elim (Option-cases (kept key fs)) [
    | inl free ↦ rw (write_key-fresh key secret fs free) (
        ground
          (arith, eq_of_bytes_eq (key_path config key) path, kept-after_write key secret fs path))
    | inr (_, taken) ↦ rw (write_key-taken key secret fs taken) there
  ]
