-- ===== src/Engine/Calls.antt =====
-- What the stores do around the calls of the engine: an error of their own for a missing table, and
-- the decoding of a value.
use rtstore.Base.{Bool, true, false, Option, none, some}
use rtstore.Base.Bytes.{Bytes}
use rtstore.Base.Result.{Db3Error, read_store_error, Result, ok, err, ok_or, ◌>>=◌}
use rtstore.Engine.{Codec}

-- `self.se.cf_handle(name).ok_or(error)?`
abbrev pub handle : Bool → Db3Error → Result (Unit {0})
handle true e = ok tt
handle false e = err e

-- What `prost` makes of a value that may be there.
unfoldable pub decode_opt : {T : Type 0} ⦃c : Codec T⦄ → Option Bytes → Result (Option T)
decode_opt none = ok none
decode_opt ⦃c⦄ (some v) = do m ← ok_or (c.decode v) read_store_error; ok (some m)
