-- ===== src/Ca/Tests.antt =====
-- Handshakes for two names.
use go_portless.Common.{
  ℕ, sym, ap, true, some, ◌<◌, ◌≡◌, refl, ◌≢◌, none, List, [], ◌∷◌, arith, Text, codes, text_eq,
  lookup, delete, insert,
}
use go_portless.Errors.{errorf}
use go_portless.Dial.{Result, ok, failed}
use go_portless.Ca.Storage.{Library, Disk, Os, Authority, generate, load}
use go_portless.Ca.Storage.Reload.{ReadsBack, load_again}
use go_portless.Ca.{loaded, Leaf, Crypto, leaf_for, issue, get_certificate}
use go_portless.Ca.Serials.{serials_distinct}

abbrev fine : Crypto
fine = record { key_error = none; sign_error = none }

abbrev session : List (Crypto × Text)
session = (fine, codes "db") ∷ (fine, codes "web") ∷ (fine, codes "db") ∷ []

abbrev db_leaf : Leaf
db_leaf = record { name = codes "db"; serial = 1 }

abbrev web_leaf : Leaf
web_leaf = record { name = codes "web"; serial = 2 }

serials_distinct_example :
    (db_leaf.name ≡ codes "db") × (0 < db_leaf.serial) × (db_leaf.serial ≢ web_leaf.serial)
unfolding get_certificate leaf_for issue lookup insert delete text_eq
serials_distinct_example =
    serials_distinct session (codes "db") (codes "web") db_leaf web_leaf refl refl
      (λ e. ground arith)

abbrev first_byte : Text → Result ℕ
first_byte [] = failed (errorf "empty" [])
first_byte (c ∷ s) = ok c

-- Keys and certificates that stand for themselves, PEM that adds nothing.
abbrev plain_library : Library
plain_library = record {
  generate_key = ok 7;
  create_certificate = λ k. ok (k ∷ []);
  parse_certificate = λ der. ok 9;
  marshal_key = λ k. ok (k ∷ []);
  parse_key = first_byte;
  encode_pem = λ kind bytes. bytes;
  decode_pem = some;
}

same_text : {a b : Text} → ok a ≡ ok b → a ≡ b
same_text e = cc

plain_library-ReadsBack : ReadsBack plain_library
plain_library-ReadsBack = record {
  pem = λ kind bytes. refl;
  key = λ k bytes h. ap first_byte (sym (same_text h));
}

abbrev empty_disk : Disk
empty_disk = record { crt = failed (errorf "no file" []); key = failed (errorf "no file" []) }

abbrev empty_os : Os
empty_os = record { make_dir = none; write_crt = none; write_key = none; is_not_exist = λ e. true }

abbrev first_authority : Authority
first_authority = record { cert = 9; key = 7; cert_pem = 7 ∷ []; issued = loaded }

abbrev written_disk : Disk
written_disk = record { crt = ok (7 ∷ []); key = ok (7 ∷ []) }

first_load : load plain_library empty_os empty_disk ≡ (ok first_authority, written_disk)
unfolding load generate
first_load = refl

load_again_example : load plain_library empty_os written_disk ≡ (ok first_authority, written_disk)
load_again_example =
    load_again plain_library plain_library-ReadsBack empty_os empty_os empty_disk written_disk
      first_authority refl first_load
