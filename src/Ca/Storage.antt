-- ===== src/Ca/Storage.antt =====
-- ca/ca.go: the authority itself, generated once and stored in two files. What the file system and
-- the libraries for keys, certificates and PEM answer are arguments; a key and a certificate are
-- numbers.
pub mod Reload
use go_portless.Common.{
  ℕ, ◌≡◌, refl, ◌⊎◌, inl, inr, Bool, true, false, not, Option, none, some, List, [], ◌∷◌, ◌++◌,
  arith, if◌then◌else◌, Text, codes,
}
use go_portless.Errors.{Err, errorf, wrap}
use go_portless.Dial.{Result, ok, failed}
use go_portless.Ca.{Ca, loaded}

infixl 5 ◌>>=◌
abbrev pub ◌>>=◌ : {A B : Type 0} → Result A → (A → Result B) → Result B
failed e >>= f = failed e
ok a >>= f = f a

-- What crypto/ecdsa, crypto/x509 and encoding/pem answer. A certificate is made for a key and read
-- back from its bytes; a PEM block has a type and bytes.
pub record Library : Type 0 where
  pub generate_key : Result ℕ
  pub create_certificate : ℕ → Result Text
  pub parse_certificate : Text → Result ℕ
  pub marshal_key : ℕ → Result Text
  pub parse_key : Text → Result ℕ
  pub encode_pem : Text → Text → Text
  pub decode_pem : Text → Option Text

-- What ReadFile answers for ca.crt and ca.key.
pub record Disk : Type 0 where
  pub crt : Result Text
  pub key : Result Text

-- What MkdirAll and the two calls of WriteFile answer, and os.IsNotExist.
pub record Os : Type 0 where
  pub make_dir : Option Err
  pub write_crt : Option Err
  pub write_key : Option Err
  pub is_not_exist : Err → Bool

-- CA, with what is drawn and cached in use.
pub record Authority : Type 0 where
  pub cert : ℕ
  pub key : ℕ
  pub cert_pem : Text
  pub issued : Ca

-- An authority with the PEM texts of its certificate and its key.
pub record Generated : Type 0 where
  pub authority : Authority
  pub crt_pem : Text
  pub key_pem : Text

abbrev pub pem_block : Text → Option Text → Result Text
pem_block what none = failed (errorf "ca: invalid %s PEM" (what ∷ []))
pem_block what (some bytes) = ok bytes

module _ (lib : Library) where
  -- generate
  unfoldable pub generate : Result Generated
  generate = do
    key ← lib.generate_key
    der ← lib.create_certificate key
    cert ← lib.parse_certificate der
    let crt = lib.encode_pem (codes "CERTIFICATE") der
    key_der ← lib.marshal_key key
    ok (record {
      authority = record { cert = cert; key = key; cert_pem = crt; issued = loaded };
      crt_pem = crt;
      key_pem = lib.encode_pem (codes "EC PRIVATE KEY") key_der;
    })

  -- fromPEM
  unfoldable pub from_pem : Text → Text → Result Authority
  from_pem crt_pem key_pem = do
    crt_bytes ← pem_block (codes "cert") (lib.decode_pem crt_pem)
    cert ← lib.parse_certificate crt_bytes
    key_bytes ← pem_block (codes "key") (lib.decode_pem key_pem)
    key ← lib.parse_key key_bytes
    ok (record { cert = cert; key = key; cert_pem = crt_pem; issued = loaded })

  abbrev pub key_stored : Generated → Option Err → Disk → Result Authority × Disk
  key_stored g (some e) d = (failed (wrap "ca: write key: %w" [] e), d)
  key_stored g none d = (ok g.authority, record d { key = ok g.key_pem })

  abbrev pub stored : Os → Generated → Option Err → Disk → Result Authority × Disk
  stored os g (some e) d = (failed (wrap "ca: write cert: %w" [] e), d)
  stored os g none d = key_stored g os.write_key (record d { crt = ok g.crt_pem })

  abbrev pub generated : Os → Result Generated → Disk → Result Authority × Disk
  generated os (failed e) d = (failed e, d)
  generated os (ok g) d = stored os g os.write_crt d

  -- Once both files have been read, or not. A write that fails is taken to leave its file as it was.
  abbrev pub load_files : Os → Result Text → Result Text → Disk → Result Authority × Disk
  load_files os (ok crt_pem) (ok key_pem) d = (from_pem crt_pem key_pem, d)
  load_files os (ok crt_pem) (failed e) d = generated os generate d
  load_files os (failed e) key d =
      if not (os.is_not_exist e) then (failed e, d) else generated os generate d

  abbrev pub dir_made : Os → Option Err → Disk → Result Authority × Disk
  dir_made os (some e) d = (failed (wrap "ca: create state dir: %w" [] e), d)
  dir_made os none d = load_files os d.crt d.key d

  -- Load
  unfoldable pub load : Os → Disk → Result Authority × Disk
  load os d = dir_made os os.make_dir d

-- DefaultStateDir: PORTLESS_STATE_DIR, UserConfigDir and TempDir are given.
unfoldable pub default_state_dir : Text → Result Text → Text → Text
default_state_dir [] (ok dir) temp = dir ++ codes "/portless"
default_state_dir [] (failed e) temp = temp ++ codes "/portless"
default_state_dir (c ∷ dir) user temp = c ∷ dir
