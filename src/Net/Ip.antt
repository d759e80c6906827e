-- ===== src/Net/Ip.antt =====
-- What the program uses of net.ParseIP: whether a text is an IPv4 address in dotted form or an
-- IPv6 address without a zone.
use go_portless.Common.{
  ℕ, zero, suc, ◌+◌, ◌-◌, ◌*◌, ◌≡◌, refl, Bool, true, false, not, ◌&&◌, ◌||◌, Option, none, some,
  [], ◌∷◌, ltb, leb, ◌==◌, if◌then◌else◌, Text, codes, text_eq, contains,
}
use go_portless.Net.{is_digit}

abbrev pub is_hex : ℕ → Bool
is_hex c = is_digit c || (leb b'a' c && leb c b'f') || (leb b'A' c && leb c b'F')

-- The fields of a dotted address: the value and the digits of the one being read, and how many
-- are complete.
unfoldable pub ipv4_fields : ℕ → ℕ → ℕ → Text → Bool
ipv4_fields val digits done [] = not (ltb done 3)
ipv4_fields val digits done (c ∷ s) =
    let digit =
      (if digits == 1 && val == 0 then false else leb (val * 10 + (c - b'0')) 255)
      && ipv4_fields (val * 10 + (c - b'0')) (digits + 1) done s in
    let dot = not (digits == 0 || text_eq s [] || done == 3) && ipv4_fields 0 0 (done + 1) s in
    if is_digit c then digit else if c == b'.' then dot else false

-- The hexadecimal digits at the front, four at most, and what follows them.
unfoldable pub read_group : ℕ → Text → Option (ℕ × Text)
read_group off [] = some (off, [])
read_group off (c ∷ s) =
    let more = if ltb 3 off then none else read_group (off + 1) s in
    if is_hex c then more else some (off, c ∷ s)

-- What one round of the IPv6 loop leaves: an error, or the bytes filled, whether an ellipsis has
-- been seen and the text left, to stop with or to go on with.
pub data Round : Type 0 where
  bad : Round
  stop more : ℕ → Bool → Text → Round

after_colon : ℕ → Bool → Text → Round
after_colon i ellipsis [] = bad
after_colon i ellipsis (c ∷ r) =
    if c == b':'
    then (if ellipsis then bad else if text_eq r [] then stop i true [] else more i true r)
    else more i ellipsis (c ∷ r)

after_group : ℕ → Bool → Text → Text → Round
unfolding after_colon ipv4_fields
after_group i ellipsis s [] = stop (i + 2) ellipsis []
after_group i ellipsis s (c ∷ r) =
    if c == b'.'
    then (if (not ellipsis && not (i == 12)) || ltb 16 (i + 4) || not (ipv4_fields 0 0 0 s)
        then bad
        else stop (i + 4) ellipsis [])
    else if c == b':'
    then after_colon (i + 2) ellipsis r
    else bad

ipv6_round : ℕ → Bool → Text → Round
unfolding after_group read_group
ipv6_round i ellipsis s = elim (read_group 0 s) [
  | none ↦ bad
  | some (off, rest) ↦ if off == 0 then bad else after_group i ellipsis s rest
]

-- The loop over the eight groups, then the test that the whole text was used and that an
-- ellipsis stands for a group that is missing.
ipv6_loop : ℕ → ℕ → Bool → Text → Bool
unfolding ipv6_round
ipv6_loop zero i ellipsis s = text_eq s [] && not ellipsis
ipv6_loop (suc f) i ellipsis s = elim (ipv6_round i ellipsis s) [
  | bad ↦ false
  | stop j e rest ↦ text_eq rest [] && (if ltb j 16 then e else not e)
  | more j e rest ↦ ipv6_loop f j e rest
]

unfoldable pub parse_ipv6 : Text → Bool
unfolding ipv6_loop
parse_ipv6 (c ∷ d ∷ s) =
    if c == b':' && d == b':'
    then text_eq s [] || ipv6_loop 8 0 true s
    else ipv6_loop 8 0 false (c ∷ d ∷ s)
parse_ipv6 s = ipv6_loop 8 0 false s

-- Which parser the first '.', ':' or '%' chooses.
parse_from : Text → Text → Bool
parse_from whole [] = false
parse_from whole (c ∷ s) =
    if c == b'.'
    then ipv4_fields 0 0 0 whole
    else if c == b':'
    then not (contains b'%' whole) && parse_ipv6 whole
    else if c == b'%'
    then false
    else parse_from whole s

-- net.ParseIP(s) != nil
unfoldable pub parse_ip : Text → Bool
unfolding parse_from ipv4_fields parse_ipv6
parse_ip s = parse_from s s

parse_ip_runs :
    (parse_ip (codes "::1") ≡ true)
    × (parse_ip (codes "fe80::1:192.168.0.1") ≡ true)
    × (parse_ip (codes "1:2:3:4:5:6:7:8") ≡ true)
    × (parse_ip (codes "1:2:3:4:5:6:7::8:9") ≡ false)
    × (parse_ip (codes "host:80") ≡ false)
    × (parse_ip (codes "[::1]") ≡ false)
    × (parse_ip (codes "127.0.0.1") ≡ true)
unfolding parse_ip contains text_eq
parse_ip_runs = (refl, refl, refl, refl, refl, refl, refl)
