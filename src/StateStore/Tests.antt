-- ===== src/StateStore/Tests.antt =====
-- The theorems on nonces at work on an engine in memory.
use rtstore.Base.{◌≡◌, refl, List, [], ◌∷◌, arith, ◌==◌, if◌then◌else◌}
use rtstore.Base.Counting.{IsCounting}
use rtstore.Base.Bytes.{be, bytes_eq}
use rtstore.Engine.Entries.{lookup}
use rtstore.Base.Result.{ok, err, write_store_error}
use rtstore.Engine.Memory.{Tables, no_rows, memory, memory-IsUp}
use rtstore.Crypto.Address.{Db3Address}
use rtstore.StateStore.{Table, table_eq, StateStore, get_nonce}
use rtstore.StateStore.Write.{incr_nonce}
use rtstore.StateStore.Nonces.{Request, incremented, incr_nonce_effect, granted, granted-IsCounting}

abbrev empty : StateStore (Tables Table)
empty = record { db = no_rows }

abbrev alice : Db3Address
alice = record { bytes = be 20 1 }

abbrev bob : Db3Address
bob = record { bytes = be 20 2 }

incr_nonce_effect_example :
    ((incr_nonce alice 1 empty).0 ≡ (if 1 == 1 then ok 1 else err write_store_error))
    × (get_nonce alice (incremented memory-IsUp alice 1 empty) ≡ ok (if 1 == 1 then 1 else 0))
    × (get_nonce bob (incremented memory-IsUp alice 1 empty) ≡ ok 0)
unfolding memory-IsUp lookup bytes_eq be
incr_nonce_effect_example =
    incr_nonce_effect memory-IsUp empty alice bob 0 1 0 refl (omega arith) refl (omega arith) refl

-- A gap, a replay, and another account in between.
abbrev requests : List Request
requests = (alice, 2) ∷ (alice, 1) ∷ (bob, 1) ∷ (alice, 1) ∷ (alice, 2) ∷ []

granted-IsCounting_example : IsCounting 0 (granted memory-IsUp alice requests empty)
unfolding memory-IsUp lookup
granted-IsCounting_example =
    granted-IsCounting memory-IsUp requests empty (λ a. 0) alice (λ a. refl) (λ a. omega arith)
