-- ===== src/DbStore/Keeps.antt =====
-- The methods of DBStoreV2 leave the number of the last mutation alone: each step of a method that
-- writes does so in another column family.
pub mod Collections
pub mod Docs
pub mod Databases
pub mod Loops
pub mod Bodies
pub mod Actions
use rtstore.Base.{
  ℕ, ◌≡◌, ◌∙◌, refl, inl, inr, Bool, true, false, Bool-cases, Option, none, some, List, [], ◌∷◌,
  ◌++◌, arith, if◌then◌else◌,
}
use rtstore.Base.Bytes.{Bytes, bytes_eq}
use rtstore.Base.Dict.{Dict}
use rtstore.Base.Result.{Db3Error, Result, ok, err, Result-cases}
use rtstore.Base.Exec.{Exec, pure, raise, query, lift, map_err_m, each, ◌>>=◌, ◌>>◌}
use rtstore.Engine.{Op, batch_at, Engine, IsUp}
use rtstore.Engine.Entries.{lookup}
use rtstore.Crypto.{Hex}
use rtstore.DbStore.{Cf, cf_eq, block_state_cf, DatabaseState, DbStore, DocStore, block_state_key}
use rtstore.DbStore.Docs.{if_docs}
use rtstore.DbStore.Write.{on_state, on_states, cf_handle, write}

-- A batch that does not write the number.
abbrev pub IsElsewhere : List (Op Cf) → Type 0
IsElsewhere ops = (o : Option Bytes) → batch_at ops block_state_cf block_state_key o ≡ o

module _ {Db Docs : Type 0} ⦃E : Engine Cf Db⦄ (up : IsUp E) where
  -- The bytes of the number.
  abbrev pub number_in : DbStore Db Docs → Option Bytes
  number_in s = lookup block_state_key (up.entries s.se block_state_cf)

  pub record KeepsNumber {A : Type 0} (m : Exec (DbStore Db Docs) A) : Type 0 where
    pub keeps : (s : DbStore Db Docs) → number_in (m s).1 ≡ number_in s

module _ {Db Docs : Type 0} ⦃E : Engine Cf Db⦄ {up : IsUp E} where
  pub KeepsNumber-bind :
      {A B : Type 0} {m : Exec (DbStore Db Docs) A} {f : A → Exec (DbStore Db Docs) B}
      → KeepsNumber up m
      → ((a : A) → KeepsNumber up (f a))
      → KeepsNumber up (m >>= f)
  KeepsNumber-bind {A} {B} {m} {f} first second = record {
    keeps = λ s. elim (Result-cases (m s).0) [
      | inl (e, failed) ↦ rw failed (first.keeps s)
      | inr (a, done) ↦ rw done ((second a).keeps (m s).1 ∙ first.keeps s)
    ];
  }

  pub KeepsNumber-then :
      {A B : Type 0} {m : Exec (DbStore Db Docs) A} {n : Exec (DbStore Db Docs) B}
      → KeepsNumber up m
      → KeepsNumber up n
      → KeepsNumber up (m >> n)
  KeepsNumber-then first second = KeepsNumber-bind first (λ _. second)

  pub KeepsNumber-lift :
      {A : Type 0} {r : DbStore Db Docs → Result A} → KeepsNumber up (λ s. (r s, s))
  KeepsNumber-lift = record { keeps = λ s. refl }

  pub KeepsNumber-map_err_m :
      {A : Type 0} {m : Exec (DbStore Db Docs) A} (e : Db3Error)
      → KeepsNumber up m
      → KeepsNumber up (map_err_m m e)
  KeepsNumber-map_err_m e inner = record { keeps = inner.keeps }

  pub KeepsNumber-if :
      {A : Type 0} (b : Bool) {m n : Exec (DbStore Db Docs) A}
      → KeepsNumber up m
      → KeepsNumber up n
      → KeepsNumber up (if b then m else n)
  KeepsNumber-if b first second = elim (Bool-cases b) [ inl t ↦ rw t first | inr f ↦ rw f second ]

  pub KeepsNumber-each :
      {A : Type 0} {f : A → Exec (DbStore Db Docs) (Unit {0})} (xs : List A)
      → ((a : A) → KeepsNumber up (f a))
      → KeepsNumber up (each f xs)
  KeepsNumber-each [] all = record { keeps = λ s. refl }
  KeepsNumber-each (x ∷ xs) all = KeepsNumber-then (all x) (KeepsNumber-each xs all)

  pub KeepsNumber-write :
      (ops : List (Op Cf)) → IsElsewhere ops → KeepsNumber up (write {Docs = Docs} ops)
  KeepsNumber-write ops elsewhere = record {
    keeps = λ s.
        rw (up.writes s.se ops)
          (up.written s.se ops block_state_cf block_state_key ∙ elsewhere (number_in up s));
  }

  pub KeepsNumber-on_state :
      (f : Dict DatabaseState → Dict DatabaseState)
      → KeepsNumber up (on_state {Db = Db} {Docs = Docs} f)
  KeepsNumber-on_state f = record { keeps = λ s. refl }

  pub KeepsNumber-on_states :
      {A : Type 0} (f : Dict DatabaseState → Result A × Dict DatabaseState)
      → KeepsNumber up (on_states {Db = Db} {Docs = Docs} f)
  KeepsNumber-on_states f = record { keeps = λ s. refl }

  pub KeepsNumber-if_docs :
      ⦃D : DocStore Docs⦄ ⦃h : Hex⦄ (m : Exec Docs (Unit {0}))
      → KeepsNumber up (if_docs {Db = Db} {Docs = Docs} m)
  KeepsNumber-if_docs m = record {
    keeps = λ s. elim (Bool-cases s.config.enable_doc_store) [
      | inl on ↦ rw on refl
      | inr off ↦ rw off refl
    ];
  }

  pub KeepsNumber-query : {A : Type 0} (r : DbStore Db Docs → Result A) → KeepsNumber up (query r)
  KeepsNumber-query r = record { keeps = λ s. refl }

  pub KeepsNumber-result :
      {A : Type 0} (r : Result A) → KeepsNumber up (lift {S = DbStore Db Docs} r)
  KeepsNumber-result r = record { keeps = λ s. refl }

  pub KeepsNumber-handle :
      (cf : Cf) (e : Db3Error) → KeepsNumber up (cf_handle {Db = Db} {Docs = Docs} cf e)
  KeepsNumber-handle cf e = record { keeps = λ s. refl }

  -- What comes after an answer has to keep the number for the answers that there are.
  pub KeepsNumber-answer :
      {A B : Type 0} (r : DbStore Db Docs → Result A) {f : A → Exec (DbStore Db Docs) B}
      → ((s : DbStore Db Docs) (a : A) → r s ≡ ok a → KeepsNumber up (f a))
      → KeepsNumber up (query r >>= f)
  KeepsNumber-answer {A} {B} r {f} second = record {
    keeps = λ s. elim (Result-cases (r s)) [
      | inl (e, failed) ↦ rw failed refl
      | inr (a, done) ↦ rw done ((second s a done).keeps s)
    ];
  }
