-- ===== src/Keys/Memory.antt =====
-- A file system in memory that never fails, and an encoding that stands for base64: what is asked of
-- both can be had.
use rtstore.Base.{refl, true, some, [], ◌++◌}
use rtstore.Base.Bytes.{Bytes}
use rtstore.Base.Dict
use rtstore.Base.Dict.{Dict, get-insert, get-adjust}
use rtstore.Keys.{Files, Base64}
use rtstore.Keys.Kept.{is_some, IsReliable}

instance abbrev pub dict_files : Files (Dict Bytes)
dict_files = record {
  exists = λ d p. is_some (Dict.get p d);
  create = λ d p. some (Dict.insert p [] d);
  write_all = λ d p b. (true, Dict.adjust p (λ c. c ++ b) d);
  sync_all = λ d p. (true, d);
  read = λ d p. Dict.get p d;
}

unfoldable pub dict_files-IsReliable : IsReliable dict_files
dict_files-IsReliable = record {
  content = λ d p. Dict.get p d;
  created = λ d p. Dict.insert p [] d;
  written = λ d p b. Dict.adjust p (λ c. c ++ b) d;
  exists_lem = λ d p. refl;
  reads = λ d p. refl;
  creates = λ d p. refl;
  writes = λ d p b. refl;
  syncs = λ d p. refl;
  content_created = λ d p q. get-insert p q [] d;
  content_written = λ d p b q. get-adjust p q (λ c. c ++ b) d;
}

instance abbrev pub plain_base64 : Base64
plain_base64 = record { encode = λ b. b; decode = λ b. some b }
