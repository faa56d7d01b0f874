-- ===== src/Documents/Memory.antt =====
-- An ejdb in memory that never fails, and a cache that keeps one database: what is asked of both can
-- be had.
use rtstore.Base.{
  ℕ, Bool-cases, ◌≡◌, ◌⊎◌, inl, inr, refl, Bool, true, false, Option, none, some, List, [], ◌∷◌,
  arith, length, ◌==◌, if◌then◌else◌,
}
use rtstore.Base.Bytes.{Bytes, bytes_eq}
use rtstore.Base.Bytes.Order.{eq_of_bytes_eq}
use rtstore.Documents.{Ejdb, Handles}
use rtstore.Documents.Kept.{IsReliable}

-- A document: where it is, and its text.
pub record Entry : Type 0 where
  pub path : Bytes
  pub collection : Bytes
  pub id : ℕ
  pub doc : Bytes

look : Bytes → Bytes → ℕ → List Entry → Option Bytes
look p c j [] = none
look p c j (e ∷ w) =
    let rest = look p c j w in
    if bytes_eq e.path p
    then if bytes_eq e.collection c then if e.id == j then some e.doc else rest else rest
    else rest

abbrev is_text : Bytes → Bool
is_text [] = false
is_text (x ∷ xs) = true

abbrev entry : Bytes → Bytes → ℕ → Bytes → Entry
entry p c id doc = record { path = p; collection = c; id = id; doc = doc }

unfoldable pub list_ejdb : Ejdb (List Entry) Bytes Bytes
unfolding look
list_ejdb = record {
  open_db = λ p w. (some p, w);
  ensure_index = λ db c f m w. (true, w);
  put_new = λ db c doc w. (some (length w), entry db c (length w) doc ∷ w);
  put = λ db c doc id w. if is_text doc then (true, entry db c id doc ∷ w) else (false, w);
  patch = λ db c doc id w. (true, entry db c id doc ∷ w);
  del = λ db c id w. (true, w);
  get = λ db c id w. look db c id w;
  query_new = λ c q. q;
  init = λ q. some q;
  set_placeholder = λ name i v q. some q;
  exec = λ db q w. some ([], length w);
}

-- The last database that was opened.
abbrev find_last : Bytes → Option (Bytes × Bytes) → Option Bytes
find_last k none = none
find_last k (some (j, db)) = if bytes_eq j k then some db else none

abbrev pub last_handle : Handles Bytes (Option (Bytes × Bytes))
last_handle = record { lookup = find_last; insert = λ k db cache. some (k, db) }

pub find_last_lem :
    (j k db g : Bytes) (cache : Option (Bytes × Bytes))
    → find_last k (some (j, db)) ≡ some g
    → ((j ≡ k) × (db ≡ g)) ⊎ (find_last k cache ≡ some g)
find_last_lem j k db g cache there = elim (Bool-cases (bytes_eq j k)) [
  | inl same ↦ inl (eq_of_bytes_eq j k same, ground (arith, same, there))
  | inr other ↦ ground (arith, other, there)
]

unfoldable pub list_ejdb-IsReliable : IsReliable list_ejdb last_handle
unfolding list_ejdb look
list_ejdb-IsReliable = record {
  path_of = λ db. db;
  content = λ w p c j. look p c j w;
  text = λ doc. doc;
  reads = is_text;
  opened = λ p w. p;
  made = λ p w. w;
  written = λ db c doc id w. entry db c id doc ∷ w;
  opens = λ p w. refl;
  path_of_opened = λ p w. refl;
  content_made = λ p w q c j. refl;
  puts = λ db c doc id w. refl;
  content_written = λ db c doc id w q d j. refl;
  gets = λ db c id w. refl;
  finds = find_last_lem;
}
