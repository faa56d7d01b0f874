-- ===== src/Recover/Fetch.antt =====
-- What the two loops of the recovery replay.
use mathlib.Core.List.{reverse-append}
use rtstore.Base.{
  ℕ, zero, suc, ◌+◌, ◌<◌, ◌≤◌, ◌^◌, ◌≡◌, refl, ap, inl, inr, ◌++◌, reverse, Option, none, some,
  List, [], ◌∷◌, arith, length, ltb, if◌then◌else◌,
}
use rtstore.Base.Bytes.{Bytes}
use rtstore.Base.Result.{Result, ok, Result-cases}
use rtstore.Base.Exec.{Exec, each}
use rtstore.Engine.{Engine, Codec}
use rtstore.Crypto.{Hex, Sha3}
use rtstore.Proto.{MutationHeader, MutationBody}
use rtstore.MutationStore.{Cf}
use rtstore.Recover.{
  Fetched, Archive, Replay, RecoverConfig, Recover, fetch_loop, fetch_arweave_tx_from_block,
  recover_from_arweave_tx, replay_all, recover_from_arweave,
}

-- The rollups from the newest back to the first that ends before `block`.
unfoldable pub since : ℕ → List Fetched → List Fetched
since block [] = []
since block (c ∷ cs) = let rest = since block cs in if ltb c.end_block block then [] else c ∷ rest

each-append :
    {S A : Type 0} (f : A → Exec S (Unit {0})) (xs ys : List A) (x y : S)
    {r : Result (Unit {0}) × S}
    → each f xs x ≡ (ok tt, y)
    → each f ys y ≡ r
    → each f (xs ++ ys) x ≡ r
each-append f [] ys x y {r} first second = ground (arith, first, second)
each-append f (a ∷ rest) ys x y {r} first second = elim (Result-cases (f a x).0) [
  | inl (e, failed) ↦ ground (arith, first, failed)
  | inr (u, done) ↦ rw done (each-append f rest ys (f a x).1 y (ground (arith, first, done)) second)
]

module _ (archive : Archive) where
  -- The tags of a rollup, which name the one before it.
  pub record IsLink (c : Fetched) (last : Option Bytes) : Type 0 where
    pub start : ℕ
    pub tagged :
        archive.get_tx_tags c.tx
        ≡ ok (record {
          start_block = start;
          end_block = c.end_block;
          last_rollup_tx = last;
          version = c.version;
        })

  -- The rollups of the archive from `c` back to the first one.
  abbrev pub IsChain : Fetched → List Fetched → Type 0
  IsChain c [] = IsLink c none
  IsChain c (d ∷ ds) = IsLink c (some d.tx) × IsChain d ds

  fetch_loop-IsChain :
      (fuel block : ℕ) (c : Fetched) (ds : List Fetched)
      → IsChain c ds
      → length ds < fuel
      → fetch_loop archive fuel block c.tx ≡ some (ok (since block (c ∷ ds)))
  unfolding fetch_loop since
  fetch_loop-IsChain zero block c ds chain enough = ground arith
  fetch_loop-IsChain (suc fuel) block c [] chain enough = ground (arith, chain.tagged)
  fetch_loop-IsChain (suc fuel) block c (d ∷ ds) (link, chain) enough =
      ground (arith, link.tagged, fetch_loop-IsChain fuel block d ds chain (omega (arith, enough)))

  fetch_arweave_tx-IsChain :
      (fuel block : ℕ) (config : RecoverConfig) (c : Fetched) (ds : List Fetched)
      → archive.get_latest_arweave_tx config.network_id ≡ ok c.tx
      → IsChain c ds
      → length ds < fuel
      → fetch_arweave_tx_from_block archive fuel config block ≡ some (ok (since block (c ∷ ds)))
  unfolding fetch_arweave_tx_from_block
  fetch_arweave_tx-IsChain fuel block config c ds newest chain enough =
      ground (arith, newest, fetch_loop-IsChain fuel block c ds chain enough)

  module _ {Db DbStore Batch Mutation Ids : Type 0} (replay : Replay DbStore Batch Mutation Ids)
      ⦃E : Engine Cf Db⦄ ⦃sha : Sha3⦄ ⦃h : Hex⦄ ⦃ch : Codec MutationHeader⦄
      ⦃cb : Codec MutationBody⦄ (config : RecoverConfig) (now : ℕ) where
    -- The rollups, the newest first, are replayed without an error, each after the one before it in the
    -- archive.
    abbrev pub IsReplayed : List Fetched → Recover Db DbStore → Recover Db DbStore → Type 0
    IsReplayed [] x y = x ≡ y
    IsReplayed (c ∷ cs) x y =
        (z : Recover Db DbStore) × IsReplayed cs x z
        × (recover_from_arweave_tx replay config now c z ≡ (ok tt, y))

    replay_all-IsReplayed :
        (txs : List Fetched) (x y : Recover Db DbStore)
        → IsReplayed txs x y
        → replay_all replay config now txs x ≡ (ok tt, y)
    unfolding replay_all
    replay_all-IsReplayed [] x y same = ap (λ z. (ok tt, z)) same
    replay_all-IsReplayed (c ∷ cs) x y (z, older, newest) = rw (reverse-append (c ∷ []) cs) (
        each-append (recover_from_arweave_tx replay config now) (reverse cs) (c ∷ []) x z
          (replay_all-IsReplayed cs x z older) (rw newest refl))

    -- If the archive's rollups are the chain from `c` back over `ds`, `c` does not end before
    -- `start_block`, and the rollups that do not end before it can be replayed one after the other from
    -- the oldest on, ending at `y`, then the recovery ends at `y` and returns the block after the end of
    -- `c`, which is a 64-bit number.
    -- Two replays are enough fuel for the outer loop, and one step for each rollup for the inner loop.
    pub recover_from_arweave-replays :
        (rounds fuel start_block : ℕ) (c : Fetched) (ds : List Fetched) (x y : Recover Db DbStore)
        → archive.get_latest_arweave_tx config.network_id ≡ ok c.tx
        → IsChain c ds
        → length ds < fuel
        → start_block ≤ c.end_block
        → c.end_block + 1 < 2 ^ 64
        → IsReplayed (since start_block (c ∷ ds)) x y
        → recover_from_arweave replay config now archive (suc (suc rounds)) fuel start_block x
          ≡ some (ok (c.end_block + 1), y)
    unfolding recover_from_arweave since
    recover_from_arweave-replays rounds fuel start c ds x y newest chain enough reach fits done =
        ground (
          arith,
          fetch_arweave_tx-IsChain fuel start config c ds newest chain enough,
          fetch_arweave_tx-IsChain fuel (c.end_block + 1) config c ds newest chain enough,
          replay_all-IsReplayed (since start (c ∷ ds)) x y done,
        )
