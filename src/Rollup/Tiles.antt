-- ===== src/Rollup/Tiles.antt =====
-- Rollup records that follow each other without a gap: the content of the table of rollups.
use mathlib.Core.List.{reverse_aux}
use rtstore.Base.{
  ℕ, ◌<◌, ◌≤◌, ◌^◌, ◌≡◌, Option, none, some, List, [], ◌∷◌, ◌++◌, arith, refl, reverse,
}
use rtstore.Base.Bytes.{Bytes, be}
use rtstore.Base.Bytes.BigEndian.{bytes_lt-be}
use rtstore.Base.Result.{Result, ok, err}
use rtstore.Engine.{Codec}
use rtstore.Engine.Entries.{Entry}
use rtstore.Engine.Extend.{IsBelow}
use rtstore.Proto.{RollupRecord}
use rtstore.MutationStore.Read.{decode_first}

-- The block up to which everything is rolled up, by the last record.
abbrev pub end_of : Result (Option RollupRecord) → Option ℕ
end_of (ok none) = some 0
end_of (ok (some r)) = some r.end_block
end_of (err e) = none

module _ ⦃cr : Codec RollupRecord⦄ where
  -- The entry holds a record of some blocks from `a` on, under the key of `a`.
  pub record IsTile (a : ℕ) (k v : Bytes) (r : RollupRecord) : Type 0 where
    pub holds : cr.decode v ≡ some r
    pub keyed : k ≡ be 8 a
    pub starts : r.start_block ≡ a
    pub ends_later : a < r.end_block

  -- The entries cover the blocks from `a` up to `b`, each once, in order.
  abbrev pub IsTiled : ℕ → List Entry → ℕ → Type 0
  IsTiled a [] b = a ≡ b
  IsTiled a ((k, v) ∷ es) b = (r : RollupRecord) × IsTile a k v r × IsTiled r.end_block es b

  tiled_le : (a : ℕ) (es : List Entry) (b : ℕ) → IsTiled a es b → a ≤ b
  tiled_le a [] b t = omega (arith, t)
  tiled_le a ((k, v) ∷ es) b (r, tile, t) =
      omega (arith, tile.ends_later, tiled_le r.end_block es b t)

  pub tiled-IsBelow :
      (a : ℕ) (es : List Entry) (b : ℕ) → IsTiled a es b → b < 2 ^ 64 → IsBelow (be 8 b) es
  tiled-IsBelow a [] b t fits = tt
  tiled-IsBelow a ((k, v) ∷ es) b (r, tile, t) fits =
      let below : a < b = omega (arith, tile.ends_later, tiled_le r.end_block es b t) in
      (
        ground (arith, tile.keyed, below, bytes_lt-be 8 a b (omega (arith, below)) (omega arith)),
        tiled-IsBelow r.end_block es b t fits,
      )

  pub IsTiled-append :
      (a : ℕ) (es : List Entry) (b : ℕ) (v : Bytes) (r : RollupRecord)
      → IsTiled a es b
      → IsTile b (be 8 b) v r
      → IsTiled a (es ++ ((be 8 b, v) ∷ [])) r.end_block
  IsTiled-append a [] b v r t tile = rw t (r, tile, refl)
  IsTiled-append a ((k, w) ∷ es) b v r (q, first, t) tile =
      (q, first, IsTiled-append q.end_block es b v r t tile)

  -- The newest record tells where the tiles end.
  tiled_last :
      (a : ℕ) (es tail : List Entry) (b : ℕ)
      → IsTiled a es b
      → end_of (decode_first tail) ≡ some a
      → end_of (decode_first (reverse_aux es tail)) ≡ some b
  unfolding decode_first
  tiled_last a [] tail b t e = rw t at e
  tiled_last a ((k, v) ∷ es) tail b (r, tile, t) e =
      tiled_last r.end_block es ((k, v) ∷ tail) b t (ground (arith, tile.holds))

  pub end_of-tiled :
      (es : List Entry) (b : ℕ) → IsTiled 0 es b → end_of (decode_first (reverse es)) ≡ some b
  unfolding decode_first
  end_of-tiled es b t = tiled_last 0 es [] b t refl
