-- ===== src/DbStore/Numbered.antt =====
-- The number of the last mutation that was applied.
use rtstore.Base.{◌≡◌, ℕ, inl, inr, Option, some, List, [], ◌∷◌, arith}
use rtstore.Base.Bytes.Order.{bytes_eq_refl}
use rtstore.Base.Dict.{Dict}
use rtstore.Base.Result.{Result, ok, err, Result-cases}
use rtstore.Engine.{Op, put_cf, Engine, IsUp, Codec, IsCodec}
use rtstore.Crypto.{Hex, Sha3}
use rtstore.Crypto.Address.{Db3Address}
use rtstore.Proto.{MutationAction}
use rtstore.Proto.Database.{Collection, DatabaseMessage, BlockState}
use rtstore.Proto.Mutation.{Mutation, ExtraItem}
use rtstore.DbStore.{Cf, cf_eq, block_state_cf, DbStore, DocStore, Texts, block_state_key}
use rtstore.DbStore.Read.{get_entry, recover_block_state}
use rtstore.DbStore.Write.{put_entry, store_block_state}
use rtstore.DbStore.Keeps.{number_in}
use rtstore.DbStore.Keeps.Actions.{apply_bodies-KeepsNumber}
use rtstore.DbStore.Apply.{apply_bodies, apply_mutation}

-- What a restart finds after a mutation that ended so, if it found `before` before it.
abbrev pub found_after :
    BlockState → Result (List ExtraItem) → Result (Option BlockState) → Result (Option BlockState)
found_after b (ok items) before = ok (some b)
found_after b (err x) before = before

module _ {Db Docs : Type 0} ⦃E : Engine Cf Db⦄ ⦃D : DocStore Docs⦄ ⦃h : Hex⦄ ⦃sha : Sha3⦄
    ⦃cc : Codec Collection⦄ ⦃cd : Codec DatabaseMessage⦄ ⦃t : Texts⦄ ⦃cb : Codec BlockState⦄
    (up : IsUp E) (law : IsCodec cb) where
  store_block_state-recovers :
      (b : BlockState) (s : DbStore Db Docs)
      → ((store_block_state b s).0 ≡ ok tt)
        × (recover_block_state (store_block_state b s).1 ≡ ok (some b))
  unfolding store_block_state put_entry recover_block_state get_entry
  store_block_state-recovers b s =
      let ops : List (Op Cf) = put_cf block_state_cf block_state_key (law.encoded b) ∷ [] in
      (
        ground (arith, up.open_cf s.se block_state_cf, law.encodes b, up.writes s.se ops),
        ground (
          arith,
          up.open_cf s.se block_state_cf,
          law.encodes b,
          up.writes s.se ops,
          up.open_cf (up.applied s.se ops) block_state_cf,
          up.reads (up.applied s.se ops) block_state_cf block_state_key,
          up.written s.se ops block_state_cf block_state_key,
          law.decodes b,
          bytes_eq_refl block_state_key,
        ),
      )

  recover_block_state-number :
      (s r : DbStore Db Docs)
      → number_in up r ≡ number_in up s
      → recover_block_state r ≡ recover_block_state s
  unfolding recover_block_state get_entry
  recover_block_state-number s r same = ground (
    arith,
    same,
    up.open_cf s.se block_state_cf,
    up.open_cf r.se block_state_cf,
    up.reads s.se block_state_cf block_state_key,
    up.reads r.se block_state_cf block_state_key,
  )

  -- On an engine that is up, whatever the action: a mutation answers what the bodies of it answer, the
  -- error of the one that failed included. If all were applied, a restart finds the block and the order
  -- of the mutation, and if one failed, what a restart before the mutation would have found, whatever
  -- the bodies before it wrote. Encoded block states decode.
  pub recover_block_state-apply_mutation :
      (action : MutationAction) (dm : Mutation) (address : Db3Address)
      (network nonce block order : ℕ) (ids : Dict (List ℕ)) (s : DbStore Db Docs)
      → ((apply_mutation action dm address network nonce block order ids s).0
          ≡ (apply_bodies action dm.bodies address network nonce block order ids s).0)
        × (recover_block_state (apply_mutation action dm address network nonce block order ids s).1
            ≡ found_after
                (record { block = block; order = order })
                (apply_bodies action dm.bodies address network nonce block order ids s).0
                (recover_block_state s))
  unfolding apply_mutation
  recover_block_state-apply_mutation action dm address network nonce block order ids s =
      let run = apply_bodies action dm.bodies address network nonce block order ids s in
      let (stores, found) =
        store_block_state-recovers (record { block = block; order = order }) run.1 in
      let kept =
        apply_bodies-KeepsNumber Docs up action dm.bodies address network nonce block order ids in
      let same = recover_block_state-number s run.1 (kept.keeps s) in
      elim (Result-cases run.0) [
        | inl (x, failed) ↦ (ground (arith, failed), ground (arith, failed, same))
        | inr (items, done) ↦ (ground (arith, done, stores), ground (arith, done, stores, found))
      ]
