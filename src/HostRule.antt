-- ===== src/HostRule.antt =====
-- http.go, validateHostRewrite and allDigits: what a host rewrite may hold, and what a port may
-- hold that is joined to it.
use go_portless.Common.{
  ℕ, Bool, true, not, ◌&&◌, ◌||◌, Option, none, some, [], ◌∷◌, leb, ◌==◌, if◌then◌else◌, Text,
  text_eq, contains,
}
use go_portless.Errors.{Err, errorf}
use go_portless.Net.{is_digit}
use go_portless.Net.Ip.{parse_ip}

-- No control byte, space, or byte with a meaning in a URL.
unfoldable pub host_byte_ok : ℕ → Bool
host_byte_ok c =
    not (leb c b' ' || c == 127 || c == b'/' || c == b'?' || c == b'#' || c == b'@' || c == 92)

unfoldable pub check_bytes : Text → Text → Option Err
check_bytes h [] = none
check_bytes h (c ∷ s) =
    if host_byte_ok c
    then check_bytes h s
    else some (errorf "host rewrite %q contains invalid host byte %q" (h ∷ (c ∷ []) ∷ []))

unfoldable pub check_colons : Text → Option Err
check_colons h =
    if contains b':' h && not (parse_ip h)
    then some (
        errorf
          "host rewrite %q must be a bare host without a port (IPv6 literals unbracketed); the request's port is preserved automatically"
          (h ∷ []))
    else none

abbrev pub bytes_checked : Option Err → Text → Option Err
bytes_checked (some e) h = some e
bytes_checked none h = check_colons h

-- validateHostRewrite; `none` is nil.
unfoldable pub validate_host_rewrite : Text → Option Err
validate_host_rewrite [] = none
validate_host_rewrite (c ∷ s) = bytes_checked (check_bytes (c ∷ s) (c ∷ s)) (c ∷ s)

unfoldable pub only_digits : Text → Bool
only_digits [] = true
only_digits (c ∷ s) = is_digit c && only_digits s

-- allDigits
unfoldable pub all_digits : Text → Bool
all_digits s = only_digits s && not (text_eq s [])
