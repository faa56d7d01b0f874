-- ===== src/StateStore/Nonces.antt =====
-- Which nonces an account is granted.
use rtstore.Base.{
  ap, Bool-cases, inl, inr, ◌&&◌, ℕ, zero, suc, ◌+◌, ◌<◌, ◌^◌, ◌≡◌, Bool, false, true, Option, none,
  some, List, [], ◌∷◌, arith, length, ◌==◌, if◌then◌else◌,
}
use rtstore.Base.Counting.{IsCounting}
use rtstore.Base.Bytes.{Bytes, be, bytes_eq}
use rtstore.Base.Bytes.BigEndian.{of_be-be, length-be}
use rtstore.Base.Bytes.Order.{bytes_eq_refl, eq_of_bytes_eq}
use rtstore.Base.Result.{Result, ok, err, write_store_error}
use rtstore.Engine.{Op, put_cf, Engine, IsUp}
use rtstore.Engine.Entries.{lookup}
use rtstore.Crypto.Address.{Db3Address}
use rtstore.StateStore.{Table, table_eq, account_meta_table, StateStore, get_nonce}
use rtstore.StateStore.Write.{incr_nonce}

-- How a nonce is kept: nothing for an account that has made no call.
abbrev pub kept : ℕ → Option Bytes
kept zero = none
kept (suc n) = some (be 8 (suc n))

-- A request: the account and the nonce that it carries.
abbrev pub Request : Type 0
Request = Db3Address × ℕ

abbrev pub granted_to : Bool → Result ℕ → List ℕ → List ℕ
granted_to true (ok n) ns = n ∷ ns
granted_to _ _ ns = ns

module _ {Db : Type 0} ⦃E : Engine Table Db⦄ (up : IsUp E) where
  -- The account is at nonce `n`.
  abbrev pub IsAt : StateStore Db → Db3Address → ℕ → Type 0
  IsAt s id n = lookup id.bytes (up.entries s.db account_meta_table) ≡ kept n

  abbrev incr_op : Db3Address → ℕ → List (Op Table)
  incr_op id n = put_cf account_meta_table id.bytes (be 8 (suc n)) ∷ []

  incr_nonce-grants :
      (s : StateStore Db) (id : Db3Address) (n : ℕ)
      → IsAt s id n
      → n + 1 < 2 ^ 64
      → incr_nonce id (suc n) s ≡ (ok (suc n), record { db = up.applied s.db (incr_op id n) })
  unfolding incr_nonce
  incr_nonce-grants s id zero at fits = ground (
    arith,
    up.open_cf s.db account_meta_table,
    up.reads s.db account_meta_table id.bytes,
    up.writes s.db (incr_op id 0),
  )
  incr_nonce-grants s id (suc n) at fits = ground (
    arith,
    up.open_cf s.db account_meta_table,
    up.reads s.db account_meta_table id.bytes,
    length-be 8 (suc n),
    of_be-be 8 (suc n) (omega arith),
    up.writes s.db (incr_op id (suc n)),
  )

  incr_nonce-refuses :
      (s : StateStore Db) (id : Db3Address) (n m : ℕ)
      → IsAt s id n
      → n + 1 < 2 ^ 64
      → (m == suc n) ≡ false
      → incr_nonce id m s ≡ (err write_store_error, s)
  unfolding incr_nonce
  incr_nonce-refuses s id zero m at fits ne =
      ground (arith, up.open_cf s.db account_meta_table, up.reads s.db account_meta_table id.bytes)
  incr_nonce-refuses s id (suc n) m at fits ne = ground (
    arith,
    up.open_cf s.db account_meta_table,
    up.reads s.db account_meta_table id.bytes,
    length-be 8 (suc n),
    of_be-be 8 (suc n) (omega arith),
  )

  after_grant :
      (s : StateStore Db) (id other : Db3Address) (n k : ℕ)
      → IsAt s other k
      → IsAt
          (record { db = up.applied s.db (incr_op id n) })
          other
          (if bytes_eq id.bytes other.bytes then suc n else k)
  after_grant s id other n k at =
      ground (arith, up.written s.db (incr_op id n) account_meta_table other.bytes)

  get_nonce-IsAt :
      (s : StateStore Db) (id : Db3Address) (n : ℕ)
      → IsAt s id n
      → n < 2 ^ 64
      → get_nonce id s ≡ ok n
  unfolding get_nonce
  get_nonce-IsAt s id zero at fits =
      ground (arith, up.open_cf s.db account_meta_table, up.reads s.db account_meta_table id.bytes)
  get_nonce-IsAt s id (suc n) at fits = ground (
    arith,
    up.open_cf s.db account_meta_table,
    up.reads s.db account_meta_table id.bytes,
    length-be 8 (suc n),
    of_be-be 8 (suc n) (omega arith),
  )

  abbrev pub incremented : Db3Address → ℕ → StateStore Db → StateStore Db
  incremented id m s = (incr_nonce id m s).1

  unfoldable pub next_level : Db3Address → ℕ → ℕ → Db3Address → ℕ → ℕ
  next_level id n m other k = if bytes_eq id.bytes other.bytes && (m == suc n) then suc n else k

  pub incremented-IsAt :
      (s : StateStore Db) (id other : Db3Address) (n m k : ℕ)
      → IsAt s id n
      → IsAt s other k
      → n + 1 < 2 ^ 64
      → IsAt (incremented id m s) other (next_level id n m other k)
  unfolding next_level
  incremented-IsAt s id other n m k at at' fits = elim (Bool-cases (m == suc n)) [
    | inl is_next ↦
        let e : m ≡ suc n = ground arith in
        ground (arith, e, incr_nonce-grants s id n at fits, after_grant s id other n k at')
    | inr is_other ↦ ground (arith, incr_nonce-refuses s id n m at fits is_other)
  ]

  pub incr_nonce_answers :
      (s : StateStore Db) (id : Db3Address) (n m : ℕ)
      → IsAt s id n
      → n + 1 < 2 ^ 64
      → (incr_nonce id m s).0 ≡ (if m == suc n then ok m else err write_store_error)
  incr_nonce_answers s id n m at fits = elim (Bool-cases (m == suc n)) [
    | inl is_next ↦
        let e : m ≡ suc n = ground arith in rw e (ground (arith, incr_nonce-grants s id n at fits))
    | inr is_other ↦ ground (arith, incr_nonce-refuses s id n m at fits is_other)
  ]

  -- On an engine that is up, an account at nonce n is granted a request exactly if it carries
  -- n + 1, and is then at that nonce, as `get_nonce` tells; any other nonce, an old one included, is
  -- refused and changes nothing. The nonces of the other accounts stay. The nonce is below 2 ^ 64 - 1.
  pub incr_nonce_effect :
      (s : StateStore Db) (id other : Db3Address) (n m k : ℕ)
      → IsAt s id n
      → n + 1 < 2 ^ 64
      → IsAt s other k
      → k < 2 ^ 64
      → bytes_eq id.bytes other.bytes ≡ false
      → ((incr_nonce id m s).0 ≡ (if m == suc n then ok m else err write_store_error))
        × (get_nonce id (incremented id m s) ≡ ok (if m == suc n then m else n))
        × (get_nonce other (incremented id m s) ≡ ok k)
  unfolding next_level
  incr_nonce_effect s id other n m k at fits at' fits' ne = (
    incr_nonce_answers s id n m at fits,
    ground (
      arith,
      get_nonce-IsAt (incremented id m s) id (next_level id n m id n)
          (incremented-IsAt s id id n m n at at fits),
      bytes_eq_refl id.bytes,
    ),
    ground (
      arith,
      get_nonce-IsAt (incremented id m s) other (next_level id n m other k)
          (incremented-IsAt s id other n m k at at' fits),
    ),
  )

  -- The nonces that one account is granted in a sequence of requests of many accounts.
  unfoldable pub granted : Db3Address → List Request → StateStore Db → List ℕ
  granted id [] s = []
  granted id ((a, n) ∷ rs) s =
      granted_to (bytes_eq a.bytes id.bytes) (incr_nonce a n s).0
        (granted id rs (incremented a n s))

  granted_step :
      (id a : Db3Address) (n m k : ℕ) (r : Result ℕ) (ns : List ℕ)
      → r ≡ (if m == suc n then ok m else err write_store_error)
      → (bytes_eq a.bytes id.bytes ≡ true → n ≡ k)
      → IsCounting (next_level a n m id k) ns
      → IsCounting k (granted_to (bytes_eq a.bytes id.bytes) r ns)
  unfolding next_level
  granted_step id a n m k r ns e same rest = ground arith

  same_level :
      (level : Db3Address → ℕ) (a b : Db3Address)
      → bytes_eq a.bytes b.bytes ≡ true
      → level a ≡ level b
  same_level level a b e = ap (λ x. level (record { bytes = x })) (eq_of_bytes_eq a.bytes b.bytes e)

  next_level_fits :
      (a : Db3Address) (n m : ℕ) (b : Db3Address) (k l : ℕ)
      → suc n + l < 2 ^ 64
      → k + l < 2 ^ 64
      → next_level a n m b k + l < 2 ^ 64
  unfolding next_level
  next_level_fits a n m b k l h g = ground arith

  -- On an engine that is up, whatever requests the accounts send, in any order and with any nonces:
  -- the nonces that an account is granted count up one by one from the one it is at, so that none is
  -- granted twice and none is left out. No account can run past 2 ^ 64 - 1.
  pub granted-IsCounting :
      (rs : List Request) (s : StateStore Db) (level : Db3Address → ℕ) (id : Db3Address)
      → ((a : Db3Address) → IsAt s a (level a))
      → ((a : Db3Address) → level a + length rs < 2 ^ 64)
      → IsCounting (level id) (granted id rs s)
  unfolding granted
  granted-IsCounting [] s level id at fits = tt
  granted-IsCounting ((a, m) ∷ rs) s level id at fits =
      granted_step id a (level a) m (level id) (incr_nonce a m s).0
        (granted id rs (incremented a m s))
        (incr_nonce_answers s a (level a) m (at a) (omega (arith, fits a))) (same_level level a id)
        (granted-IsCounting rs (incremented a m s) (λ o. next_level a (level a) m o (level o)) id
          (λ b. incremented-IsAt s a b (level a) m (level b) (at a) (at b) (omega (arith, fits a)))
          (λ b.
            next_level_fits a (level a) m b (level b) (length rs) (omega (arith, fits a))
              (omega (arith, fits b))))
