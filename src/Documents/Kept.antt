-- ===== src/Documents/Kept.antt =====
-- What a reliable ejdb makes of the documents: what is added is what is read, through whichever handle
-- a database is open.
use rtstore.Base.{
  ℕ, ◌≡◌, ◌⊎◌, refl, ap, ◌∙◌, inl, inr, Bool, true, false, Bool-cases, Option, some, List, [], ◌∷◌,
  arith, ◌==◌, if◌then◌else◌,
}
use rtstore.Base.Bytes.{Bytes, bytes_eq}
use rtstore.Base.Result.{ok}
use rtstore.Crypto.{Hex}
use rtstore.Crypto.Address.{Db3Address}
use rtstore.Documents.{
  Ejdb, Handles, Documents, Called, returned, panicked, failed, each_doc, db_path,
}

-- The documented behaviour of ejdb on a disk that never fails, and of the cache. `content` is what a
-- directory holds, `text` how ejdb prints a document, and `reads` whether it is one.
pub record IsReliable {World Db Statement Cache : Type 0} (E : Ejdb World Db Statement)
    (H : Handles Db Cache) : Type 0 where
  pub path_of : Db → Bytes
  pub content : World → Bytes → Bytes → ℕ → Option Bytes
  pub text : Bytes → Bytes
  pub reads : Bytes → Bool
  pub opened : Bytes → World → Db
  pub made : Bytes → World → World
  pub written : Db → Bytes → Bytes → ℕ → World → World
  pub opens : (p : Bytes) (w : World) → E.open_db p w ≡ (some (opened p w), made p w)
  pub path_of_opened : (p : Bytes) (w : World) → path_of (opened p w) ≡ p
  pub content_made :
      (p : Bytes) (w : World) (q c : Bytes) (j : ℕ) → content (made p w) q c j ≡ content w q c j
  pub puts :
      (db : Db) (c doc : Bytes) (id : ℕ) (w : World)
      → E.put db c doc id w ≡ (if reads doc then (true, written db c doc id w) else (false, w))
  pub content_written :
      (db : Db) (c doc : Bytes) (id : ℕ) (w : World) (q d : Bytes) (j : ℕ)
      → content (written db c doc id w) q d j ≡ (
          if bytes_eq (path_of db) q
          then if bytes_eq c d
            then if id == j then some (text doc) else content w q d j
            else content w q d j
          else content w q d j)
  pub gets :
      (db : Db) (c : Bytes) (id : ℕ) (w : World) → E.get db c id w ≡ content w (path_of db) c id
  pub finds :
      (j k : Bytes) (db g : Db) (cache : Cache)
      → H.lookup k (H.insert j db cache) ≡ some g
      → ((j ≡ k) × (db ≡ g)) ⊎ (H.lookup k cache ≡ some g)

module _ {World Db Statement Cache : Type 0} {E : Ejdb World Db Statement} {H : Handles Db Cache}
    ⦃h : Hex⦄ (up : IsReliable E H) where
  -- An open handle is one of its database.
  abbrev pub IsCoherent : Documents World Cache → Type 0
  IsCoherent s =
      (a : Db3Address) (g : Db)
      → H.lookup a.bytes s.dbs ≡ some g
      → up.path_of g ≡ db_path s.config a

  abbrev pub doc_at : Db3Address → Bytes → ℕ → Documents World Cache → Option Bytes
  doc_at a c j s = up.content s.world (db_path s.config a) c j

  -- How adding the documents ends.
  unfoldable pub outcome : List Bytes → List ℕ → Called
  outcome [] ids = returned (ok tt)
  outcome (doc ∷ docs) [] = panicked
  outcome (doc ∷ docs) (id ∷ ids) = if up.reads doc then outcome docs ids else failed

  -- What an id has when the documents are added one by one, up to one that is none.
  unfoldable pub stored : List Bytes → List ℕ → ℕ → Option Bytes → Option Bytes
  stored [] ids j o = o
  stored (doc ∷ docs) [] j o = o
  stored (doc ∷ docs) (id ∷ ids) j o =
      if up.reads doc then stored docs ids j (if id == j then some (up.text doc) else o) else o

  abbrev pub docs_after :
      Bytes → Bytes → List Bytes → List ℕ → Bytes → Bytes → ℕ → World → Option Bytes
  docs_after p c docs ids q d j w =
      if bytes_eq p q
      then if bytes_eq c d then stored docs ids j (up.content w q d j) else up.content w q d j
      else up.content w q d j

  stored_step :
      (doc : Bytes) (docs : List Bytes) (id : ℕ) (ids : List ℕ) (j : ℕ) (o : Option Bytes)
      → up.reads doc ≡ true
      → stored (doc ∷ docs) (id ∷ ids) j o
        ≡ stored docs ids j (if id == j then some (up.text doc) else o)
  unfolding stored
  stored_step doc docs id ids j o reads = rw reads refl

  docs_after-written :
      (db : Db) (c doc : Bytes) (docs : List Bytes) (id : ℕ) (ids : List ℕ) (w : World)
      (q d : Bytes) (j : ℕ)
      → up.reads doc ≡ true
      → docs_after (up.path_of db) c docs ids q d j (up.written db c doc id w)
        ≡ docs_after (up.path_of db) c (doc ∷ docs) (id ∷ ids) q d j w
  docs_after-written db c doc docs id ids w q d j reads = ground (
    arith,
    up.content_written db c doc id w q d j,
    stored_step doc docs id ids j (up.content w q d j) reads,
  )

  each_put :
      (db : Db) (c doc : Bytes) (docs : List Bytes) (id : ℕ) (ids : List ℕ) (w : World)
      → up.reads doc ≡ true
      → each_doc (E.put db c) (doc ∷ docs) (id ∷ ids) w
        ≡ each_doc (E.put db c) docs ids (up.written db c doc id w)
  unfolding each_doc
  each_put db c doc docs id ids w reads = rw (up.puts db c doc id w) (rw reads refl)

  each_refused :
      (db : Db) (c doc : Bytes) (docs : List Bytes) (id : ℕ) (ids : List ℕ) (w : World)
      → up.reads doc ≡ false
      → each_doc (E.put db c) (doc ∷ docs) (id ∷ ids) w ≡ (failed, w)
  unfolding each_doc
  each_refused db c doc docs id ids w bad = rw (up.puts db c doc id w) (rw bad refl)

  pub put_outcome :
      (db : Db) (c : Bytes) (docs : List Bytes) (ids : List ℕ) (w : World)
      → (each_doc (E.put db c) docs ids w).0 ≡ outcome docs ids
  unfolding outcome each_doc
  put_outcome db c [] ids w = refl
  put_outcome db c (doc ∷ docs) [] w = refl
  put_outcome db c (doc ∷ docs) (id ∷ ids) w = elim (Bool-cases (up.reads doc)) [
    | inl reads ↦
        ap (λ r. r.0) (each_put db c doc docs id ids w reads)
        ∙ put_outcome db c docs ids (up.written db c doc id w)
        ∙ rw reads refl
    | inr bad ↦ ap (λ r. r.0) (each_refused db c doc docs id ids w bad) ∙ rw bad refl
  ]

  docs_after_refused :
      (p c doc : Bytes) (docs : List Bytes) (id : ℕ) (ids : List ℕ) (q d : Bytes) (j : ℕ)
      (w : World)
      → up.reads doc ≡ false
      → up.content w q d j ≡ docs_after p c (doc ∷ docs) (id ∷ ids) q d j w
  unfolding stored
  docs_after_refused p c doc docs id ids q d j w bad = rw bad (ground arith)

  docs_after_none :
      (p c : Bytes) (docs : List Bytes) (ids : List ℕ) (q d : Bytes) (j : ℕ) (w : World)
      → stored docs ids j (up.content w q d j) ≡ up.content w q d j
      → up.content w q d j ≡ docs_after p c docs ids q d j w
  docs_after_none p c docs ids q d j w same = ground arith

  pub put_content :
      (db : Db) (c : Bytes) (docs : List Bytes) (ids : List ℕ) (w : World) (q d : Bytes) (j : ℕ)
      → up.content (each_doc (E.put db c) docs ids w).1 q d j
        ≡ docs_after (up.path_of db) c docs ids q d j w
  unfolding each_doc stored
  put_content db c [] ids w q d j = docs_after_none (up.path_of db) c [] ids q d j w refl
  put_content db c (doc ∷ docs) [] w q d j =
      docs_after_none (up.path_of db) c (doc ∷ docs) [] q d j w refl
  put_content db c (doc ∷ docs) (id ∷ ids) w q d j = elim (Bool-cases (up.reads doc)) [
    | inl reads ↦
        ap (λ r. up.content r.1 q d j) (each_put db c doc docs id ids w reads)
        ∙ put_content db c docs ids (up.written db c doc id w) q d j
        ∙ docs_after-written db c doc docs id ids w q d j reads
    | inr bad ↦
        ap (λ r. up.content r.1 q d j) (each_refused db c doc docs id ids w bad)
        ∙ docs_after_refused (up.path_of db) c doc docs id ids q d j w bad
  ]
