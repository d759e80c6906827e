-- ===== src/Backends/Parse/Tests.antt =====
-- ParseTCP at concrete addresses.
use go_portless.Common.{
  ◌≡◌, refl, Bool, false, [], ◌∷◌, ◌++◌, ltb, contains, has_space, Text, codes, text_eq, arith,
  length, trim_space, trim_left, trim_right,
}
use go_portless.Net.{join_host_port, split_host_port, split_plain, cut_last}
use go_portless.Dial.{Result, ok}
use go_portless.Backends.Parse.{
  Url, cut_scheme, has_prefix, trim_left_brackets, trim_right_brackets, trim_brackets, parse_tcp,
}
use go_portless.Backends.Parse.Accepted.{IsAccepted, parse_tcp-IsAccepted}
use go_portless.Backends.Parse.Written.{parse_tcp-join_host_port, parse_tcp_default_port}

-- Every URL is read as that of an HTTPS server, or of a plain one.
abbrev reads : Text → Text → Result Url
reads scheme s = ok (record {
  scheme = scheme;
  has_user = false;
  host = codes "example.com";
  path = [];
  raw_query = [];
  fragment = [];
})

-- Ports of up to five digits.
abbrev short : Text → Bool
short port = ltb (length port) 6

parse_tcp_url :
    parse_tcp (reads (codes "http")) short (codes " http://example.com")
    ≡ ok (codes "example.com:80")
unfolding parse_tcp trim_space trim_left trim_right cut_scheme has_prefix text_eq split_host_port
    split_plain cut_last contains trim_brackets trim_left_brackets trim_right_brackets
    join_host_port
parse_tcp_url = refl

parse_tcp-IsAccepted_example :
    IsAccepted
      (reads (codes "http"))
      short
      (trim_space (codes " http://example.com"))
      (codes "example.com:80")
parse_tcp-IsAccepted_example =
    parse_tcp-IsAccepted (reads (codes "http")) short (codes " http://example.com") parse_tcp_url

parse_tcp-join_host_port_example :
    parse_tcp (reads (codes "http")) short (join_host_port (codes "::1") (codes "8080"))
    ≡ ok (join_host_port (codes "::1") (codes "8080"))
unfolding contains has_space
parse_tcp-join_host_port_example =
    parse_tcp-join_host_port (reads (codes "http")) short (codes "::1") (codes "8080")
      ((λ e. absurd (ground arith)), (refl, refl), (refl, refl)) ((refl, refl), refl) (refl, refl)
      refl

parse_tcp_default_port_example :
    let parsed = ok (join_host_port (codes "::1") (codes "80")) in
    (contains b':' (codes "::1") ≡ false
      → parse_tcp (reads (codes "http")) short (codes "::1") ≡ parsed)
    × (parse_tcp (reads (codes "http")) short (b'[' ∷ (codes "::1" ++ codes "]")) ≡ parsed)
    × (parse_tcp (reads (codes "http")) short (b'[' ∷ codes "::1") ≡ parsed)
unfolding contains has_space
parse_tcp_default_port_example =
    parse_tcp_default_port (reads (codes "http")) short (codes "::1")
      ((λ e. absurd (ground arith)), (refl, refl), (refl, refl)) refl
