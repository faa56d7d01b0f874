-- ===== src/Documents/Added.antt =====
-- What is read of the documents after some were added: a database is open under its own path, and the
-- loop of Documents/Kept ran on it.
use rtstore.Base.{ℕ, ◌≡◌, refl, sym, ap, ◌∙◌, inl, inr, none, some, Option-cases, List}
use rtstore.Base.Bytes.{Bytes}
use rtstore.Base.Result.{ok}
use rtstore.Crypto.{Hex, to_hex_text}
use rtstore.Keys.{push}
use rtstore.Crypto.Address.{Db3Address, to_hex}
use rtstore.Documents.{
  Ejdb, Handles, DocStoreConfig, Documents, failed, each_doc, db_path, open_db_internal, get_db_ref,
  with_db, add_str_docs, get_doc, some_or_failed,
}
use rtstore.Documents.Kept.{
  IsReliable, IsCoherent, doc_at, outcome, docs_after, put_outcome, put_content,
}

module _ {World Db Statement Cache : Type 0} {E : Ejdb World Db Statement} {H : Handles Db Cache}
    ⦃h : Hex⦄ (up : IsReliable E H) where
  -- The database is open after it was asked for, and nothing else changed.
  record Found (a : Db3Address) (s : Documents World Cache) : Type 0 where
    pub db : Db
    pub after : Documents World Cache
    pub got : get_db_ref E H a s ≡ (some db, after)
    pub is_its : up.path_of db ≡ db_path s.config a
    pub same_config : after.config ≡ s.config
    pub coherent : IsCoherent up after
    pub same : (q c : Bytes) (j : ℕ) → up.content after.world q c j ≡ up.content s.world q c j

  path_by_bytes :
      (config : DocStoreConfig) (a b : Db3Address)
      → a.bytes ≡ b.bytes
      → db_path config a ≡ db_path config b
  unfolding db_path to_hex
  path_by_bytes config a b same = ap (λ t. push config.db_root_path (to_hex_text t)) same

  found_open :
      (a : Db3Address) (s : Documents World Cache) (db : Db)
      → H.lookup a.bytes s.dbs ≡ some db
      → IsCoherent up s
      → Found a s
  unfolding get_db_ref
  found_open a s db there good = record {
    db = db;
    after = s;
    got = rw there refl;
    is_its = good a db there;
    same_config = refl;
    coherent = good;
    same = λ q c j. refl;
  }

  opened_anew : Db3Address → Documents World Cache → Documents World Cache
  opened_anew a s =
      let p = db_path s.config a in
      record s { world = up.made p s.world; dbs = H.insert a.bytes (up.opened p s.world) s.dbs }

  opened_anew-IsCoherent :
      (a : Db3Address) (s : Documents World Cache)
      → IsCoherent up s
      → IsCoherent up (opened_anew a s)
  unfolding opened_anew
  opened_anew-IsCoherent a s good b g there =
      let p = db_path s.config a in
      elim (up.finds a.bytes b.bytes (up.opened p s.world) g s.dbs there) [
        | inl (key, db) ↦
            ap up.path_of (sym db) ∙ up.path_of_opened p s.world ∙ path_by_bytes s.config a b key
        | inr before ↦ good b g before
      ]

  found_closed :
      (a : Db3Address) (s : Documents World Cache)
      → H.lookup a.bytes s.dbs ≡ none
      → IsCoherent up s
      → Found a s
  unfolding get_db_ref open_db_internal opened_anew
  found_closed a s closed good =
      let p = db_path s.config a in
      record {
        db = up.opened p s.world;
        after = opened_anew a s;
        got = rw closed (rw (up.opens p s.world) refl);
        is_its = up.path_of_opened p s.world;
        same_config = refl;
        coherent = opened_anew-IsCoherent a s good;
        same = λ q c j. up.content_made p s.world q c j;
      }

  found : (a : Db3Address) (s : Documents World Cache) → IsCoherent up s → Found a s
  found a s good = elim (Option-cases (H.lookup a.bytes s.dbs)) [
    | inl closed ↦ found_closed a s closed good
    | inr (db, there) ↦ found_open a s db there good
  ]

  with_db-found :
      {A : Type 0} (a : Db3Address) (s : Documents World Cache) (missing : A)
      (f : Db → World → A × World) (F : Found a s)
      → with_db E H a missing f s
        ≡ ((f F.db F.after.world).0, record F.after { world = (f F.db F.after.world).1 })
  unfolding with_db
  with_db-found a s missing f F = rw F.got refl

  -- What is read of a document is what the directory of its database holds.
  pub get_doc-doc_at :
      (a : Db3Address) (c : Bytes) (j : ℕ) (s : Documents World Cache)
      → IsCoherent up s
      → (get_doc E H a c j s).0 ≡ some_or_failed (doc_at up a c j s)
  unfolding get_doc
  get_doc-doc_at a c j s good =
      let F = found a s good in
      ap (λ r. r.0) (with_db-found a s (ok none) (λ db w. (some_or_failed (E.get db c j w), w)) F)
      ∙ ap some_or_failed (
          up.gets F.db c j F.after.world
          ∙ F.same (up.path_of F.db) c j
          ∙ ap (λ p. up.content s.world p c j) F.is_its)

  docs_after_found :
      (a : Db3Address) (s : Documents World Cache) (c : Bytes) (docs : List Bytes) (ids : List ℕ)
      (q d : Bytes) (j : ℕ) (F : Found a s)
      → docs_after up (up.path_of F.db) c docs ids q d j F.after.world
        ≡ docs_after up (db_path s.config a) c docs ids q d j s.world
  docs_after_found a s c docs ids q d j F = rw F.is_its (rw (F.same q d j) refl)

  -- On an ejdb that is reliable, adding documents ends with a panic if the ids run out before a text
  -- that is no document, and with an error at such a text; what is read afterwards, of any document, is
  -- what was added last under its id before that, and else what was there. The handles stay those of
  -- their databases.
  pub get_doc-add_str_docs :
      (a : Db3Address) (c : Bytes) (docs : List Bytes) (ids : List ℕ) (b : Db3Address) (d : Bytes)
      (j : ℕ) (s : Documents World Cache)
      → IsCoherent up s
      → ((add_str_docs E H a c docs ids s).0 ≡ outcome up docs ids)
        × IsCoherent up (add_str_docs E H a c docs ids s).1
        × ((get_doc E H b d j (add_str_docs E H a c docs ids s).1).0
            ≡ some_or_failed
                (docs_after up (db_path s.config a) c docs ids (db_path s.config b) d j s.world))
  unfolding add_str_docs
  get_doc-add_str_docs a c docs ids b d j s good =
      let F = found a s good in
      let put = λ (db : Db). each_doc (E.put db c) docs ids in
      let w = (put F.db F.after.world).1 in
      rw (with_db-found a s failed put F) (
        put_outcome up F.db c docs ids F.after.world,
        F.coherent,
        get_doc-doc_at b d j (record F.after { world = w }) F.coherent
            ∙ ap some_or_failed (
                ap (λ k. up.content w (db_path k b) d j) F.same_config
                ∙ put_content up F.db c docs ids F.after.world (db_path s.config b) d j
                ∙ docs_after_found a s c docs ids (db_path s.config b) d j F),
      )
