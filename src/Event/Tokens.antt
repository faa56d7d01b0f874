-- ===== src/Event/Tokens.antt =====
-- `log_to_doc` and `param_to_value`: the values of an event as a JSON document.
use rtstore.Base.{Bool}
use rtstore.Base.Bytes.{Bytes}
use rtstore.Crypto.{Hex, to_hex_text}

mutual
  -- `ethabi::Token`. A number is given by its decimal text, which is all that is used of it.
  pub data Token : Type 0 where
    address : Bytes → Token
    string : Bytes → Token
    uint : Bytes → Token
    int : Bytes → Token
    fixed_bytes : Bytes → Token
    bytes : Bytes → Token
    bool : Bool → Token
    array : Tokens → Token
    fixed_array : Tokens → Token
    tuple : Tokens → Token

  pub data Tokens : Type 0 where
    nil : Tokens
    cons : Token → Tokens → Tokens

mutual
  -- The values of `serde_json` that a document of an event has.
  pub data Json : Type 0 where
    text : Bytes → Json
    boolean : Bool → Json
    list : Jsons → Json

  pub data Jsons : Type 0 where
    end : Jsons
    item : Json → Jsons → Jsons

unfoldable mutual
  pub param_to_value : ⦃h : Hex⦄ → Token → Json
  param_to_value (address addr) = text (to_hex_text addr)
  param_to_value (string value) = text value
  param_to_value (uint value) = text value
  param_to_value (int value) = text value
  param_to_value ⦃h⦄ (fixed_bytes b) = text (h.encode b)
  param_to_value ⦃h⦄ (bytes b) = text (h.encode b)
  param_to_value (bool value) = boolean value
  param_to_value (array tokens) = list (params_to_values tokens)
  param_to_value (fixed_array tokens) = list (params_to_values tokens)
  param_to_value (tuple tokens) = list (params_to_values tokens)

  pub params_to_values : ⦃h : Hex⦄ → Tokens → Jsons
  params_to_values nil = end
  params_to_values (cons t ts) = item (param_to_value t) (params_to_values ts)

-- `LogParam`
pub record LogParam : Type 0 where
  pub name : Bytes
  pub value : Token
