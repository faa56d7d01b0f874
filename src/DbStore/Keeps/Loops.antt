-- ===== src/DbStore/Keeps/Loops.antt =====
-- The loops over the bodies of a mutation leave its number alone if each body does.
use rtstore.Base.{ℕ, suc, Option, none, some, List, [], ◌∷◌, ◌++◌}
use rtstore.Base.Result.{ok}
use rtstore.Base.Exec.{Exec, pure}
use rtstore.Engine.{Engine, IsUp}
use rtstore.Proto.Mutation.{BodyWrapper, ExtraItem}
use rtstore.DbStore.{Cf, cf_eq, DbStore}
use rtstore.DbStore.Apply.{do_or, on_first, on_head, on_each}
use rtstore.DbStore.Keeps.{KeepsNumber, KeepsNumber-bind, KeepsNumber-result}

module _ {Db Docs : Type 0} ⦃E : Engine Cf Db⦄ (up : IsUp E) where
  -- What is done for a body that is the action's.
  unfoldable pub MayKeep : Option (Exec (DbStore Db Docs) (List ExtraItem)) → Type 0
  MayKeep none = Unit
  MayKeep (some m) = KeepsNumber up m

  or-KeepsNumber :
      (o : Option (Exec (DbStore Db Docs) (List ExtraItem)))
      (rest : Exec (DbStore Db Docs) (List ExtraItem))
      → MayKeep o
      → KeepsNumber up rest
      → KeepsNumber up (do_or o rest)
  unfolding MayKeep
  or-KeepsNumber none rest one others = others
  or-KeepsNumber (some m) rest one others = one

  pub on_head-KeepsNumber :
      (f : BodyWrapper → Option (Exec (DbStore Db Docs) (List ExtraItem))) (bs : List BodyWrapper)
      → ((b : BodyWrapper) → MayKeep (f b))
      → KeepsNumber up (on_head f bs)
  unfolding on_head
  on_head-KeepsNumber f [] all = KeepsNumber-result (ok [])
  on_head-KeepsNumber f (b ∷ bs) all =
      or-KeepsNumber (f b) (pure []) (all b) (KeepsNumber-result (ok []))

  pub on_first-KeepsNumber :
      (f : BodyWrapper → Option (Exec (DbStore Db Docs) (List ExtraItem))) (bs : List BodyWrapper)
      → ((b : BodyWrapper) → MayKeep (f b))
      → KeepsNumber up (on_first f bs)
  unfolding on_first
  on_first-KeepsNumber f [] all = KeepsNumber-result (ok [])
  on_first-KeepsNumber f (b ∷ bs) all =
      or-KeepsNumber (f b) (on_first f bs) (all b) (on_first-KeepsNumber f bs all)

  pub on_each-KeepsNumber :
      (f : ℕ → BodyWrapper → Exec (DbStore Db Docs) (List ExtraItem)) (i : ℕ)
      (bs : List BodyWrapper)
      → ((i : ℕ) (b : BodyWrapper) → KeepsNumber up (f i b))
      → KeepsNumber up (on_each f i bs)
  unfolding on_each
  on_each-KeepsNumber f i [] all = KeepsNumber-result (ok [])
  on_each-KeepsNumber f i (b ∷ bs) all = KeepsNumber-bind (all i b) λ items.
      KeepsNumber-bind (on_each-KeepsNumber f (suc i) bs all)
        λ rest. KeepsNumber-result (ok (items ++ rest))
