-- ===== src/MutationStore/Numbering.antt =====
-- The numbering of mutations: blocks and orders, under any interleaving of the tasks that number
-- mutations and produce blocks, and across a restart.
use rtstore.Base.{ℕ, ◌+◌, ◌<◌, ◌^◌, ◌≡◌, refl, ◌⊎◌, List, [], ◌∷◌, arith, length, All}
use rtstore.Base.Bytes.{Bytes}
use rtstore.Base.Result.{Result, ok, err}
use rtstore.Engine.{Engine}
use rtstore.Crypto.{Hex, Sha3}
use rtstore.Crypto.TxId
use rtstore.MutationStore.{Cf, BlockState, MutationStore}
use rtstore.MutationStore.Write.{increase_block_return_last_state}
use rtstore.MutationStore.Mutations.{generate_mutation_block_and_order}

-- A block and an order.
abbrev pub Number : Type 0
Number = ℕ × ℕ

abbrev pub Before : Number → Number → Type 0
Before (b, o) (b', o') = (b < b') ⊎ ((b ≡ b') × (o < o'))

-- What the tasks of the node call: a request numbers its mutation, or the block producer ticks.
pub data Call : Type 0 where
  submit : Bytes → Bytes → Call
  tick : Call

abbrev pub AllAfter : Number → List Number → Type 0
AllAfter n = All (Before n)

-- Each number comes after all that stand before it.
abbrev pub IsRising : List Number → Type 0
IsRising [] = Unit {0}
IsRising (n ∷ ns) = AllAfter n ns × IsRising ns

Before-trans : (a b c : Number) → Before a b → Before b c → Before a c
Before-trans (a, i) (b, j) (c, k) h g = ground arith

AllAfter-trans : (a b : Number) (ns : List Number) → Before a b → AllAfter b ns → AllAfter a ns
AllAfter-trans a b [] h g = tt
AllAfter-trans a b (n ∷ ns) h g = (Before-trans a b n h g.0, AllAfter-trans a b ns h g.1)

IsRising-cons :
    (a m : Number) (ns : List Number)
    → Before a m
    → AllAfter m ns × IsRising ns
    → AllAfter a (m ∷ ns) × IsRising (m ∷ ns)
IsRising-cons a m ns h (after, rising) = ((h, AllAfter-trans a m ns h after), (after, rising))

abbrev pub issued_by : Result (Bytes × ℕ × ℕ) → List Number → List Number
issued_by (ok (id, block, order)) ns = (block, order) ∷ ns
issued_by (err e) ns = ns

abbrev pub number : BlockState → Number
number b = (b.block, b.order)

module _ {Db : Type 0} ⦃E : Engine Cf Db⦄ where
  unfoldable pub ticked : MutationStore Db → MutationStore Db
  ticked s = (increase_block_return_last_state s).1

  -- A tick moves to the next block at order 0, whether or not the engine takes the write.
  pub increase_block_moves :
      (s : MutationStore Db)
      → s.blocks.block + 1 < 2 ^ 64
      → ((ticked s).blocks.block ≡ s.blocks.block + 1) × ((ticked s).blocks.order ≡ 0)
  unfolding increase_block_return_last_state ticked
  increase_block_moves s fits = ground arith

module _ {Db : Type 0} ⦃E : Engine Cf Db⦄ ⦃sha : Sha3⦄ ⦃h : Hex⦄ where
  unfoldable pub numbered : Bytes → Bytes → MutationStore Db → MutationStore Db
  numbered p g s = (generate_mutation_block_and_order p g s).1

  -- The answer carries the number that the store is left at.
  pub generate_answers :
      (p g : Bytes) (s : MutationStore Db)
      → (generate_mutation_block_and_order p g s).0
        ≡ ok (
          TxId.to_hex (TxId.of_pair p g),
          (numbered p g s).blocks.block,
          (numbered p g s).blocks.order,
        )
  unfolding generate_mutation_block_and_order numbered
  generate_answers p g s = refl

  pub generate_moves :
      (p g : Bytes) (s : MutationStore Db)
      → s.blocks.order + 1 < 2 ^ 32
      → ((numbered p g s).blocks.block ≡ s.blocks.block)
        × ((numbered p g s).blocks.order ≡ s.blocks.order + 1)
  unfolding generate_mutation_block_and_order numbered
  generate_moves p g s fits = ground arith

  -- The numbers that a schedule of calls gives out, in order. A tick may fail in the engine.
  unfoldable pub issued : List Call → MutationStore Db → List Number
  unfolding numbered ticked
  issued [] s = []
  issued (submit payload signature ∷ cs) s =
      issued_by (generate_mutation_block_and_order payload signature s).0
        (issued cs (numbered payload signature s))
  issued (tick ∷ cs) s = issued cs (ticked s)

  IsRising-from :
      (cs : List Call) (s : MutationStore Db)
      → length cs + s.blocks.block < 2 ^ 64
      → length cs + s.blocks.order < 2 ^ 32
      → AllAfter (s.blocks.block, s.blocks.order) (issued cs s) × IsRising (issued cs s)
  unfolding issued
  IsRising-from [] s hb ho = (tt, tt)
  IsRising-from (submit p g ∷ cs) s hb ho =
      let s' : MutationStore Db = numbered p g s in
      let m : Number = (s'.blocks.block, s'.blocks.order) in
      let moves = generate_moves p g s (omega arith) in
      let step : Before (s.blocks.block, s.blocks.order) m = omega (arith, moves) in
      rw (generate_answers p g s) (
        IsRising-cons _ m (issued cs s') step
          (IsRising-from cs (numbered p g s) (omega (arith, moves)) (omega (arith, moves))))
  IsRising-from (tick ∷ cs) s hb ho =
      let s' : MutationStore Db = ticked s in
      let m : Number = (s'.blocks.block, s'.blocks.order) in
      let moves = increase_block_moves s (omega arith) in
      let step : Before (s.blocks.block, s.blocks.order) m = omega (arith, moves) in
      let (after, rising) =
        IsRising-from cs (ticked s) (omega (arith, moves)) (omega (arith, moves)) in
      (AllAfter-trans _ m (issued cs s') step after, rising)

  -- However requests and the block producer interleave, and also if the engine fails, every
  -- mutation is given a block and an order that come after those of all mutations before it, as
  -- long as the schedule is too short for the counters to wrap around.
  pub issued-IsRising :
      (cs : List Call) (s : MutationStore Db)
      → length cs + s.blocks.block < 2 ^ 64
      → length cs + s.blocks.order < 2 ^ 32
      → IsRising (issued cs s)
  issued-IsRising cs s hb ho = (IsRising-from cs s hb ho).1
