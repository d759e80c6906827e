-- ===== src/Ca.antt =====
-- ca/ca.go: the leaf certificates that the authority issues, by name, and the cache of them.
-- Keys and signatures are left out: what the cryptographic calls of an issue answer, before and
-- after the serial number is drawn, is an argument. A serial number is a natural number.
pub mod Serials
pub mod Storage
mod Tests
use go_portless.Common.{ℕ, suc, Option, none, some, [], ◌∷◌, Text, codes, Dict, lookup, insert}
use go_portless.Errors.{Err}
use go_portless.Dial.{Result, ok, failed}

-- A certificate, by the name that it is for and its serial number.
pub record Leaf : Type 0 where
  pub name : Text
  pub serial : ℕ

-- CA: the cache, and the last serial number drawn.
pub record Ca : Type 0 where
  pub leaf : Dict Leaf
  pub serial : ℕ

-- The state that Load starts from, whether the authority is new or read from disk.
abbrev pub loaded : Ca
loaded = record { leaf = []; serial = 0 }

-- What GenerateKey and CreateCertificate answer; `none` is success.
pub record Crypto : Type 0 where
  pub key_error : Option Err
  pub sign_error : Option Err

abbrev pub signed : Ca → Text → Option Err → Ca × Result Leaf
signed c name (some e) = (record c { serial = suc c.serial }, failed e)
signed c name none =
    (record c { serial = suc c.serial }, ok (record { name = name; serial = suc c.serial }))

abbrev pub issue_with : Option Err → Option Err → Ca → Text → Ca × Result Leaf
issue_with (some e) s c name = (c, failed e)
issue_with none s c name = signed c name s

-- issue
unfoldable pub issue : Crypto → Ca → Text → Ca × Result Leaf
issue x c name = issue_with x.key_error x.sign_error c name

abbrev pub cache : Text → Ca × Result Leaf → Ca × Result Leaf
cache name (c, failed e) = (c, failed e)
cache name (c, ok l) = (record c { leaf = insert name l c.leaf }, ok l)

abbrev pub leaf_cached : Option Leaf → Crypto → Ca → Text → Ca × Result Leaf
leaf_cached (some l) x c name = (c, ok l)
leaf_cached none x c name = cache name (issue x c name)

-- LeafFor
unfoldable pub leaf_for : Crypto → Ca → Text → Ca × Result Leaf
leaf_for x c name = leaf_cached (lookup name c.leaf) x c name

-- GetCertificate of ServerTLSConfig, for the name of the handshake.
unfoldable pub get_certificate : Crypto → Ca → Text → Ca × Result Leaf
get_certificate x c [] = leaf_for x c (codes "localhost")
get_certificate x c (b ∷ name) = leaf_for x c (b ∷ name)
