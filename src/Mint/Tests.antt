-- ===== src/Mint/Tests.antt =====
-- A mutation that the node signs for the chain, at work in memory.
use rtstore.Base.{◌≡◌, refl, none, some}
use rtstore.Base.Text.{codes}
use rtstore.Base.Bytes.{be}
use rtstore.Base.Result.{ok}
use rtstore.Engine.{Codec}
use rtstore.Engine.Entries.{lookup}
use rtstore.Engine.Memory.{Tables, no_rows, memory}
use rtstore.Crypto.HexText.{hex_text}
use rtstore.Proto.{mint_document_db}
use rtstore.Proto.Mutation.{Body, mint_doc_database_mutation, Mutation}
use rtstore.StateStore
use rtstore.StateStore.{table_eq, StateStore, get_nonce}
use rtstore.Requests.{Signing, unwrap_and_light_verify}
use rtstore.Mint.{Registry, Signed, typed_mutation, minting, sign_mutation}
use rtstore.Mint.Light.{unwrap_and_light_verify-sign_mutation}

-- Every signature is the wallet's.
instance abbrev chain : Registry
chain = record {
  decode_database = λ log. none;
  decode_collection = λ log. none;
  database_signature = codes "database";
  collection_signature = codes "collection";
  wallet_address = be 20 9;
  sign_typed_data = λ d. some (codes "sig");
  to_vec = λ d. some (codes "payload");
  mutation_type = codes "types";
}

abbrev mint_body : Body
mint_body = mint_doc_database_mutation (record {
  signature = codes "s";
  tx = codes "00";
  db_addr = codes "0x01";
  desc = codes "d";
  sender = codes "0x02";
})

instance abbrev one_mutation : Codec Mutation
one_mutation = record {
  encode = λ m. some (codes "m");
  decode = λ b. some (minting mint_document_db mint_body);
}

instance abbrev reader : Signing
reader = record {
  parse_typed_data = λ payload. some (typed_mutation (codes "m") 1);
  parse_signature = λ sig. some sig;
  recover_typed_data = λ sig d. some (be 20 9);
}

abbrev empty : StateStore (Tables StateStore.Table)
empty = record { db = no_rows }

unwrap_and_light_verify-sign_mutation_example :
    (s : Signed) × (sign_mutation empty mint_body mint_document_db ≡ ok s)
    × (s.mutation ≡ minting mint_document_db mint_body)
    × (unwrap_and_light_verify s.payload s.signature
        ≡ ok (minting mint_document_db mint_body, record { bytes = be 20 9 }, 1))
unfolding get_nonce lookup
unwrap_and_light_verify-sign_mutation_example =
    unwrap_and_light_verify-sign_mutation empty mint_body mint_document_db 0
      (record { bytes = codes "m"; encodes = refl; decodes = refl })
      (record {
        signature = codes "sig";
        text = codes "payload";
        signs = refl;
        prints = refl;
        reads = refl;
        reads_signature = refl;
        recovers = refl;
      })
      refl
