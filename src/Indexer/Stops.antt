-- ===== src/Indexer/Stops.antt =====
-- The recovery of the indexer ends.
use rtstore.Base.{
  ℕ, zero, suc, ◌+◌, ◌*◌, ◌<◌, ◌≤◌, ◌^◌, ◌≡◌, inl, inr, Option, some, List, [], ◌∷◌, arith,
  Option-cases, ap, ◌∙◌,
}
use rtstore.Base.Words.{add_u64}
use rtstore.Base.Result.{write_store_error, Result, ok, err, Result-cases}
use rtstore.Engine.{Engine, Codec}
use rtstore.Crypto.{Hex, Sha3}
use rtstore.Proto.Database.{Collection, DatabaseMessage, BlockState}
use rtstore.Proto.Mutation.{Mutation}
use rtstore.DbStore
use rtstore.DbStore.{DbStore, DocStore, Texts}
use rtstore.DbStore.Read.{recover_block_state}
use rtstore.Requests.{Signing}
use rtstore.Requests.DocIds.{JsonObjects}
use rtstore.Indexer.{IndexerNode, MutationWrapper, StoreSdk}
use rtstore.Indexer.Apply.{parse_and_apply_mutations}
use rtstore.Indexer.Blocks.{
  start_of, after_window, fetch_windows, from_state, recover_from_fetched_blocks,
}

-- From this block on the storage node has no mutations.
abbrev pub HasNoneFrom : ℕ → StoreSdk → Type 0
HasNoneFrom last sdk = (b : ℕ) → last ≤ b → sdk.get_blocks b (add_u64 b 1000) ≡ some []

fuel_lem : (k extra : ℕ) → suc k + extra ≡ suc (k + extra)
fuel_lem k extra = omega arith

module _ {Db Docs : Type 0} ⦃h : Hex⦄ ⦃E : Engine DbStore.Cf Db⦄ ⦃cc : Codec Collection⦄
    ⦃cd : Codec DatabaseMessage⦄ ⦃D : DocStore Docs⦄ ⦃sha : Sha3⦄ ⦃cb : Codec BlockState⦄
    ⦃t : Texts⦄ ⦃g : Signing⦄ ⦃cm : Codec Mutation⦄ ⦃j : JsonObjects⦄ (sdk : StoreSdk) where
  fetch_windows-goes_on :
      (fuel start next : ℕ) (x y : IndexerNode Db Docs) (m : MutationWrapper)
      (ms : List MutationWrapper)
      → sdk.get_blocks start (add_u64 start 1000) ≡ some (m ∷ ms)
      → parse_and_apply_mutations (m ∷ ms) x ≡ (ok tt, y)
      → add_u64 start 100 ≡ next
      → fetch_windows sdk (suc fuel) start x ≡ fetch_windows sdk fuel next y
  unfolding fetch_windows
  fetch_windows-goes_on fuel start next x y m ms found done e =
      rw found (ap (after_window (fetch_windows sdk fuel (add_u64 start 100))) done)
      ∙ ap (λ s. fetch_windows sdk fuel s y) e

  fetch_windows-stops :
      (last k start : ℕ) (x : IndexerNode Db Docs)
      → HasNoneFrom last sdk
      → last ≤ start + k * 100
      → start + k * 100 < 2 ^ 64
      → (r : Result (Unit {0}) × IndexerNode Db Docs) × ((extra : ℕ)
          → fetch_windows sdk (suc (k + extra)) start x ≡ some r)
  unfolding fetch_windows
  fetch_windows-stops last zero start x ends enough fits =
      ((ok tt, x), λ extra. ground (arith, ends start (omega arith)))
  fetch_windows-stops last (suc k) start x ends enough fits =
      elim (Option-cases (sdk.get_blocks start (add_u64 start 1000))) [
        | inl lost ↦ ((err write_store_error, x), λ extra. ground (arith, lost))
        | inr ([], found) ↦ ((ok tt, x), λ extra. ground (arith, found))
        | inr (m ∷ ms, found) ↦
            let run = parse_and_apply_mutations (m ∷ ms) x in
            let next : add_u64 start 100 ≡ start + 100 = omega arith in
            elim (Result-cases run.0) [
              | inl (e, bad) ↦ ((err e, run.1), λ extra. ground (arith, found, bad))
              | inr (u, done) ↦
                  let ih =
                    fetch_windows-stops last k (start + 100) run.1 ends (omega arith)
                      (omega arith) in
                  (
                    ih.0,
                    λ extra.
                        fetch_windows-goes_on (suc k + extra) start (start + 100) x run.1 m ms found
                          (ground (arith, done)) next
                        ∙ ap (λ f. fetch_windows sdk f (start + 100) run.1) (fuel_lem k extra)
                        ∙ ih.1 extra,
                  )
            ]
      ]

  -- If the storage node has no mutations from block `last` on, the recovery of an indexer whose store
  -- has the state of its blocks stops: a step for each hundred blocks up to there and one more are
  -- enough, and more steps change nothing.
  pub recover_from_fetched_blocks-stops :
      (last k : ℕ) (x : IndexerNode Db Docs) (state : Option BlockState)
      → recover_block_state x.db_store ≡ ok state
      → HasNoneFrom last sdk
      → last ≤ start_of state + k * 100
      → start_of state + k * 100 < 2 ^ 64
      → (r : Result (Unit {0}) × IndexerNode Db Docs) × ((extra : ℕ)
          → recover_from_fetched_blocks sdk (suc (k + extra)) x ≡ some r)
  unfolding recover_from_fetched_blocks
  recover_from_fetched_blocks-stops last k x state at ends enough fits =
      let found = fetch_windows-stops last k (start_of state) x ends enough fits in
      (found.0, λ extra. ap (λ r. from_state sdk (suc (k + extra)) r x) at ∙ found.1 extra)
