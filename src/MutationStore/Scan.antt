-- ===== src/MutationStore/Scan.antt =====
-- `scan_records` and `has_enough_round_left` against plain descriptions of what they return.
use rtstore.Base.{
  ℕ, zero, suc, ◌+◌, ◌%◌, ◌^◌, ◌<◌, ◌≡◌, refl, ◌&&◌, List, [], ◌∷◌, reverse, arith, length, take,
  drop, ltb, leb, if◌then◌else◌,
}
use rtstore.Base.Bytes.{be}
use rtstore.Base.Result.{ok, err, read_store_error}
use rtstore.Engine.{Engine, IsUp, Codec}
use rtstore.Engine.Entries.{Entry, from}
use rtstore.MutationStore.{Cf, cf_eq, rollup_store, MutationStore, add_u32}
use rtstore.MutationStore.Read.{
  push_decoded, scan_skip, scan_take, scan_records, count_rounds, has_enough_round_left,
}

module _ {T : Type 0} ⦃c : Codec T⦄ where
  -- The messages of some entries, without those that do not decode.
  pub decoded : List Entry → List T
  unfolding push_decoded
  decoded [] = []
  decoded ((k, v) ∷ es) = push_decoded (c.decode v) (decoded es)

  scan_take-decoded :
      (n : ℕ) (es : List Entry) (count end_ : ℕ)
      → end_ ≡ count + n
      → scan_take es count end_ ≡ decoded (take n es)
  unfolding scan_take decoded
  scan_take-decoded zero [] count end_ e = refl
  scan_take-decoded zero ((k, v) ∷ es) count end_ e = ground arith
  scan_take-decoded (suc n) [] count end_ e = refl
  scan_take-decoded (suc n) ((k, v) ∷ es) count end_ e =
      ground (arith, scan_take-decoded n es (count + 1) end_ (omega arith))

  decoded_none : (n : ℕ) → decoded (take n []) ≡ []
  unfolding decoded
  decoded_none zero = refl
  decoded_none (suc n) = refl

  abbrev take_after : List Entry × ℕ → ℕ → List T
  take_after (ahead, count) end_ = scan_take ahead count end_

  scan-decoded :
      (j : ℕ) (es : List Entry) (count start end_ n : ℕ)
      → start ≡ count + j
      → end_ ≡ start + n
      → take_after (scan_skip es count start) end_ ≡ decoded (take n (drop j es))
  unfolding scan_skip scan_take
  scan-decoded zero [] count start end_ n e g = ground (arith, decoded_none n)
  scan-decoded zero ((k, v) ∷ es) count start end_ n e g =
      ground (arith, scan_take-decoded n ((k, v) ∷ es) count end_ (omega arith))
  scan-decoded (suc j) [] count start end_ n e g = ground (arith, decoded_none n)
  scan-decoded (suc j) ((k, v) ∷ es) count start end_ n e g =
      ground (arith, scan-decoded j es (count + 1) start end_ n (omega arith) g)

count_rounds-length :
    (es : List Entry) (count m : ℕ)
    → count_rounds es count m ≡ (leb 1 (length es) && leb m (count + length es))
unfolding count_rounds
count_rounds-length [] count m = ground arith
count_rounds-length (e ∷ es) count m = ground (arith, count_rounds-length es (count + 1) m)

module _ {Db : Type 0} ⦃E : Engine Cf Db⦄ where
  -- On an engine that is up, a scan with a limit within the configured one returns the messages of the
  -- `limit` entries that follow the first `start` ones, the newest key first, and passes over values
  -- that do not decode; a larger limit is refused. The end of the page is below 2 ^ 32.
  pub scan_records-eq-page :
      {T : Type 0} ⦃c : Codec T⦄ (up : IsUp E) (cf : Cf) (start limit : ℕ) (s : MutationStore Db)
      → start + limit < 2 ^ 32
      → scan_records {T = T} cf start limit s ≡ (
          if ltb (s.scan_max_limit % 2 ^ 32) limit
          then err read_store_error
          else ok (decoded (take limit (drop start (reverse (up.entries s.se cf))))))
  unfolding scan_records
  scan_records-eq-page {T} ⦃c⦄ up cf start limit s b = ground (
    arith,
    up.open_cf s.se cf,
    up.seeks_last s.se cf,
    scan-decoded {T = T} ⦃c = c⦄ start (reverse (up.entries s.se cf)) 0 start (add_u32 start limit)
        limit (omega arith) (omega arith),
  )

  -- On an engine that is up, the loop that stops early tells whether the rollups from `start_block` on
  -- are at least `min_rounds` and at least one.
  pub has_enough_round_left-eq-count :
      (up : IsUp E) (start_block min_rounds : ℕ) (s : MutationStore Db)
      → has_enough_round_left start_block min_rounds s
        ≡ ok (
            leb 1 (length (from (be 8 start_block) (up.entries s.se rollup_store)))
            && leb min_rounds (length (from (be 8 start_block) (up.entries s.se rollup_store))))
  unfolding has_enough_round_left
  has_enough_round_left-eq-count up b m s = ground (
    arith,
    up.open_cf s.se rollup_store,
    up.seeks s.se rollup_store (be 8 b),
    count_rounds-length (from (be 8 b) (up.entries s.se rollup_store)) 0 m,
  )
