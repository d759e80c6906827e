-- ===== src/Ca/Storage/Reload.antt =====
-- The authority that Load answers is the one that later runs find.
use go_portless.Common.{
  ◌≡◌, refl, sym, subst, inl, inr, not, Option, none, some, arith, Text, codes, Bool-cases, ℕ,
  if_true, if_false,
}
use go_portless.Errors.{Err}
use go_portless.Dial.{Result, ok, failed}
use go_portless.Ca.{loaded}
use go_portless.Ca.Storage.{
  ◌>>=◌, Library, Disk, Os, Authority, Generated, generate, from_pem, stored, generated, load_files,
  dir_made, load,
}

-- What is relied on: PEM and the encoding of keys are read back as they were written.
pub record ReadsBack (lib : Library) : Type 0 where
  pub pem : (kind bytes : Text) → lib.decode_pem (lib.encode_pem kind bytes) ≡ some bytes
  pub key : (k : ℕ) (bytes : Text) → lib.marshal_key k ≡ ok bytes → lib.parse_key bytes ≡ ok k

-- What generate makes of a key, a certificate's bytes, the certificate, and the key's bytes.
abbrev made_of : Library → ℕ → Text → ℕ → Text → Generated
made_of lib k der cert key_der =
    let crt = lib.encode_pem (codes "CERTIFICATE") der in
    record {
      authority = record { cert = cert; key = k; cert_pem = crt; issued = loaded };
      crt_pem = crt;
      key_pem = lib.encode_pem (codes "EC PRIVATE KEY") key_der;
    }

same_generated : {g h : Generated} → ok g ≡ ok h → g ≡ h
same_generated e = cc

module _ (lib : Library) (back : ReadsBack lib) where
  abbrev IsReadBack : Generated → Type 0
  IsReadBack g = from_pem lib g.crt_pem g.key_pem ≡ ok g.authority

  made_of-IsReadBack :
      (k : ℕ) (der : Text) (cert : ℕ) (key_der : Text)
      → lib.parse_certificate der ≡ ok cert
      → lib.marshal_key k ≡ ok key_der
      → IsReadBack (made_of lib k der cert key_der)
  unfolding from_pem
  made_of-IsReadBack k der cert key_der c m =
      rw (back.pem (codes "CERTIFICATE") der)
        (rw c (rw (back.pem (codes "EC PRIVATE KEY") key_der) (rw (back.key k key_der m) refl)))

  keyed-IsReadBack :
      (k : ℕ) (der : Text) (cert : ℕ) (g : Generated) (r : Result Text)
      → lib.parse_certificate der ≡ ok cert
      → lib.marshal_key k ≡ r
      → (r >>= λ key_der. ok (made_of lib k der cert key_der)) ≡ ok g
      → IsReadBack g
  keyed-IsReadBack k der cert g (failed e) c m h = absurd (ground arith)
  keyed-IsReadBack k der cert g (ok key_der) c m h =
      subst IsReadBack (same_generated h) (made_of-IsReadBack k der cert key_der c m)

  certified-IsReadBack :
      (k : ℕ) (der : Text) (g : Generated) (r : Result ℕ)
      → lib.parse_certificate der ≡ r
      → (r >>= λ cert. lib.marshal_key k >>= λ key_der. ok (made_of lib k der cert key_der)) ≡ ok g
      → IsReadBack g
  certified-IsReadBack k der g (failed e) c h = absurd (ground arith)
  certified-IsReadBack k der g (ok cert) c h =
      keyed-IsReadBack k der cert g (lib.marshal_key k) c refl h

  signed-IsReadBack :
      (k : ℕ) (g : Generated) (r : Result Text)
      → (r >>= λ der. lib.parse_certificate der >>= λ cert.
          lib.marshal_key k >>= λ key_der. ok (made_of lib k der cert key_der))
        ≡ ok g
      → IsReadBack g
  signed-IsReadBack k g (failed e) h = absurd (ground arith)
  signed-IsReadBack k g (ok der) h = certified-IsReadBack k der g (lib.parse_certificate der) refl h

  drawn-IsReadBack :
      (g : Generated) (r : Result ℕ)
      → (r >>= λ k. lib.create_certificate k >>= λ der. lib.parse_certificate der >>= λ cert.
          lib.marshal_key k >>= λ key_der. ok (made_of lib k der cert key_der))
        ≡ ok g
      → IsReadBack g
  drawn-IsReadBack g (failed e) h = absurd (ground arith)
  drawn-IsReadBack g (ok k) h = signed-IsReadBack k g (lib.create_certificate k) h

  generate-IsReadBack : (g : Generated) → generate lib ≡ ok g → IsReadBack g
  unfolding generate
  generate-IsReadBack g h = drawn-IsReadBack g lib.generate_key h

  -- The files of this disk hold this authority.
  abbrev Holds : Disk → Authority → Type 0
  Holds d a =
      (crt : Text) × (key : Text) × (d.crt ≡ ok crt)
      × (d.key ≡ ok key)
      × (from_pem lib crt key ≡ ok a)

  -- If an authority is answered, the disk holds it.
  abbrev Kept : Result Authority × Disk → Type 0
  Kept (failed e, d) = Unit
  Kept (ok a, d) = Holds d a

  stored-Kept :
      (os : Os) (g : Generated) (d : Disk) (write_crt write_key : Option Err)
      → IsReadBack g
      → Kept (stored lib (record os { write_key = write_key }) g write_crt d)
  stored-Kept os g d (some e) k h = tt
  stored-Kept os g d none (some e) h = tt
  stored-Kept os g d none none h = (g.crt_pem, g.key_pem, refl, refl, h)

  generated-Kept :
      (os : Os) (r : Result Generated) (d : Disk) → generate lib ≡ r → Kept (generated lib os r d)
  generated-Kept os (failed e) d h = tt
  generated-Kept os (ok g) d h =
      stored-Kept os g d os.write_crt os.write_key (generate-IsReadBack g h)

  read-Kept :
      (d : Disk) (crt key : Text) (r : Result Authority)
      → d.crt ≡ ok crt
      → d.key ≡ ok key
      → from_pem lib crt key ≡ r
      → Kept (r, d)
  read-Kept d crt key (failed e) c k h = tt
  read-Kept d crt key (ok a) c k h = (crt, key, c, k, h)

  load_files-Kept :
      (os : Os) (d : Disk) (crt key : Result Text)
      → d.crt ≡ crt
      → d.key ≡ key
      → Kept (load_files lib os crt key d)
  load_files-Kept os d (ok crt) (ok key) c k = read-Kept d crt key (from_pem lib crt key) c k refl
  load_files-Kept os d (ok crt) (failed e) c k = generated-Kept os (generate lib) d refl
  load_files-Kept os d (failed e) key c k = elim (Bool-cases (not (os.is_not_exist e))) [
    | inl stop ↦ subst Kept (sym (if_true _ stop)) tt
    | inr go ↦ subst Kept (sym (if_false _ go)) (generated-Kept os (generate lib) d refl)
  ]

  dir_made-Kept : (os : Os) (o : Option Err) (d : Disk) → Kept (dir_made lib os o d)
  dir_made-Kept os (some e) d = tt
  dir_made-Kept os none d = load_files-Kept os d d.crt d.key refl refl

  load-Kept : (os : Os) (d : Disk) (r : Result Authority × Disk) → load lib os d ≡ r → Kept r
  unfolding load
  load-Kept os d r h = subst Kept h (dir_made-Kept os os.make_dir d)

  reload :
      (later : Os) (d : Disk) (a : Authority)
      → later.make_dir ≡ none
      → Holds d a
      → load lib later d ≡ (ok a, d)
  unfolding load
  reload later d a dir (crt, key, c, k, h) = rw dir (rw c (rw k (rw h refl)))

  -- The authority lasts. Whatever Load has found in the directory, generated or stored: if it has
  -- answered an authority, then Load in a later run, in which the directory can be made, answers the
  -- same certificate and key and changes neither file, so that clients that trust the certificate
  -- need not be told again. PEM blocks and the encoding of keys are read back as they were written.
  pub load_again :
      (os later : Os) (d d' : Disk) (a : Authority)
      → later.make_dir ≡ none
      → load lib os d ≡ (ok a, d')
      → load lib later d' ≡ (ok a, d')
  load_again os later d d' a dir h = reload later d' a dir (load-Kept os d (ok a, d') h)
