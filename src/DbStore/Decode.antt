-- ===== src/DbStore/Decode.antt =====
-- Texts that other packages decode, in mutations.
use rtstore.Base.{List, [], ◌∷◌}
use rtstore.Base.Bytes.{Bytes}
use rtstore.Base.Result.{apply_mutation_error, invalid_address, Result, ok, ok_or, ◌>>=◌}
use rtstore.Crypto.Address.{Db3Address}
use rtstore.DbStore.{Texts}

-- `DB3Address::try_from` on a text.
abbrev pub address_of_text : ⦃t : Texts⦄ → Bytes → Result Db3Address
address_of_text ⦃t⦄ text = ok_or (t.decode_bytes_hex text) invalid_address

-- The texts of the documents; one that is no BSON is an error.
unfoldable pub document_texts : ⦃t : Texts⦄ → List Bytes → Result (List Bytes)
document_texts [] = ok []
document_texts ⦃t⦄ (buf ∷ bufs) = do
  doc ← ok_or (t.document_text buf) apply_mutation_error
  docs ← document_texts bufs
  ok (doc ∷ docs)
