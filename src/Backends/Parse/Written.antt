-- ===== src/Backends/Parse/Written.antt =====
-- ParseTCP on addresses as they are written, with a port and without.
use go_portless.Common.{
  ℕ, ◌≡◌, refl, ◌∙◌, ◌≢◌, inl, inr, Bool, true, false, not, ◌&&◌, none, some, [], ◌∷◌, ◌++◌, arith,
  Text, codes, contains, contains-append, has_space, trim_space-none, has_space-append, Bool-cases,
  cut_at, cut_at-append,
}
use go_portless.Net.{split_host_port, join_host_port, split_bracketed, split_plain, split_closed}
use go_portless.Net.HostPort.{IsBare, IsPort, cut_last-none, split_host_port-join_host_port}
use go_portless.Dial.{Result, ok}
use go_portless.Backends.Parse.{
  Url, has_prefix, cut_scheme, trim_left_brackets, trim_right_brackets, trim_brackets,
  starts_bracket, parse_trimmed, parse_tcp,
}

-- Neither spaces nor slashes.
abbrev pub IsWord : Text → Type 0
IsWord s = (has_space s ≡ false) × (contains b'/' s ≡ false)

has_prefix-none :
    (c : ℕ) (s : Text) → contains b'/' s ≡ false → has_prefix (codes "://") (c ∷ s) ≡ false
unfolding has_prefix contains
has_prefix-none c [] h = ground arith
has_prefix-none c (d ∷ s) h = ground arith

cut_scheme-none : (s : Text) → contains b'/' s ≡ false → cut_scheme s ≡ none
unfolding cut_scheme
cut_scheme-none [] h = refl
cut_scheme-none (c ∷ s) h =
    let tail : contains b'/' s ≡ false = unfold contains in ground arith in
    rw (has_prefix-none c s tail, cut_scheme-none s tail) refl

IsWord-append : (s t : Text) → IsWord s → IsWord t → IsWord (s ++ t)
IsWord-append s t (a, b) (c, d) =
    (has_space-append s t a c, rw (contains-append b'/' s t, b, d) refl)

closing : IsWord (codes "]")
unfolding has_space contains
closing = (refl, refl)

IsWord-join : (host port : Text) → IsWord host → IsWord port → IsWord (join_host_port host port)
unfolding join_host_port has_space contains
IsWord-join host port h p = elim (Bool-cases (contains b':' host)) [
  | inl e ↦ rw e (
      IsWord-append (codes "[") (host ++ (codes "]:" ++ port)) (refl, refl)
        (IsWord-append host (codes "]:" ++ port) h
          (IsWord-append (codes "]:") port (refl, refl) p)))
  | inr e ↦
      rw e
        (IsWord-append host (codes ":" ++ port) h (IsWord-append (codes ":") port (refl, refl) p))
]

cut_at-none : (c : ℕ) (s : Text) → contains c s ≡ false → cut_at c s ≡ none
unfolding cut_at contains
cut_at-none c [] h = refl
cut_at-none c (x ∷ s) h = rw (cut_at-none c s (ground arith)) (ground arith)

-- Brackets around a text that has none.
trim_right_brackets-none : (s : Text) → IsBare s → trim_right_brackets s ≡ s
unfolding trim_right_brackets contains
trim_right_brackets-none [] h = refl
trim_right_brackets-none (c ∷ []) h = ground arith
trim_right_brackets-none (c ∷ d ∷ s) h = rw (trim_right_brackets-none (d ∷ s) (ground arith)) refl

trim_right_brackets-closed : (s : Text) → IsBare s → trim_right_brackets (s ++ codes "]") ≡ s
unfolding trim_right_brackets contains
trim_right_brackets-closed [] h = refl
trim_right_brackets-closed (c ∷ []) h = ground arith
trim_right_brackets-closed (c ∷ d ∷ s) h =
    rw (trim_right_brackets-closed (d ∷ s) (ground arith)) refl

trim_left_brackets-none : (s : Text) → IsBare s → trim_left_brackets s ≡ s
unfolding trim_left_brackets contains
trim_left_brackets-none [] h = refl
trim_left_brackets-none (c ∷ s) h = ground arith

-- A left bracket before a text that does not end.
trim_right_brackets-cons :
    (b c : ℕ) (s t : Text) → trim_right_brackets s ≡ c ∷ t → trim_right_brackets (b ∷ s) ≡ b ∷ c ∷ t
unfolding trim_right_brackets
trim_right_brackets-cons b c s t h = rw h refl

-- The text s is trimmed to the host.
trim_opened :
    (c : ℕ) (t s : Text)
    → IsBare (c ∷ t)
    → trim_right_brackets s ≡ c ∷ t
    → trim_brackets (b'[' ∷ s) ≡ c ∷ t
unfolding trim_brackets
trim_opened c t s h e =
    rw (trim_right_brackets-cons b'[' c s t e)
      (unfold trim_left_brackets in trim_left_brackets-none (c ∷ t) h)

split_host_port-bracket : (s : Text) → split_host_port (b'[' ∷ s) ≡ split_bracketed s
unfolding split_host_port
split_host_port-bracket s = refl

split_closed_none :
    (host : Text) → contains b']' host ≡ false → split_host_port (b'[' ∷ (host ++ codes "]")) ≡ none
unfolding split_bracketed split_closed
split_closed_none host h =
    split_host_port-bracket (host ++ codes "]") ∙ ground (arith, cut_at-append b']' host [] h)

split_opened_none :
    (host : Text) → contains b']' host ≡ false → split_host_port (b'[' ∷ host) ≡ none
unfolding split_bracketed
split_opened_none host h = split_host_port-bracket host ∙ ground (arith, cut_at-none b']' host h)

split_bare_none :
    (host : Text)
    → contains b'[' host ≡ false
    → contains b':' host ≡ false
    → split_host_port host ≡ none
unfolding split_host_port split_plain contains
split_bare_none [] b h = refl
split_bare_none (c ∷ s) b h = let no_colon = cut_last-none b':' (c ∷ s) h in ground arith

join-ne-nil : (host port : Text) → host ≢ [] → join_host_port host port ≢ []
unfolding join_host_port
join-ne-nil [] port h e = h refl
join-ne-nil (c ∷ host) port h e = absurd (ground arith)

-- The hypotheses under which a host is written: it is not empty, and it has no bracket, space or
-- slash.
abbrev pub IsHost : Text → Type 0
IsHost host = (host ≢ []) × IsBare host × IsWord host

module _ (parse : Text → Result Url) (lookup_port : Text → Bool) where
  accepts_split :
      (s host port : Text)
      → s ≢ []
      → cut_scheme s ≡ none
      → split_host_port s ≡ some (host, port)
      → host ≢ []
      → lookup_port port ≡ true
      → parse_trimmed parse lookup_port s ≡ ok (join_host_port host port)
  accepts_split [] host port ne c p h l = absurd (ne refl)
  accepts_split (x ∷ s) [] port ne c p h l = absurd (h refl)
  accepts_split (x ∷ s) (y ∷ host) port ne c p h l = rw c (rw p (rw l refl))

  accepts_default :
      (s host : Text)
      → s ≢ []
      → cut_scheme s ≡ none
      → split_host_port s ≡ none
      → (contains b':' s && not (starts_bracket s)) ≡ false
      → trim_brackets s ≡ host
      → host ≢ []
      → lookup_port (codes "80") ≡ true
      → parse_trimmed parse lookup_port s ≡ ok (join_host_port host (codes "80"))
  accepts_default [] host ne c p b t h l = absurd (ne refl)
  accepts_default (x ∷ s) [] ne c p b t h l = absurd (h refl)
  accepts_default (x ∷ s) (y ∷ host) ne c p b t h l = rw c (rw p (rw b (rw t (rw l refl))))

  -- A host and a port that JoinHostPort puts together are accepted as they are, an IPv6 address with
  -- its brackets included. The host is not empty and has no bracket, space or slash; the port has none
  -- of these and no colon, and LookupPort accepts it.
  pub parse_tcp-join_host_port :
      (host port : Text)
      → IsHost host
      → IsPort port
      → IsWord port
      → lookup_port port ≡ true
      → parse_tcp parse lookup_port (join_host_port host port) ≡ ok (join_host_port host port)
  unfolding parse_tcp
  parse_tcp-join_host_port host port (ne, bare, word) p w l =
      let s = join_host_port host port in
      let whole = IsWord-join host port word w in
      rw (trim_space-none s whole.0) (
        accepts_split s host port (join-ne-nil host port ne) (cut_scheme-none s whole.1)
          (split_host_port-join_host_port host port bare p) ne l)

  plain_default :
      (host : Text)
      → IsHost host
      → contains b':' host ≡ false
      → lookup_port (codes "80") ≡ true
      → parse_tcp parse lookup_port host ≡ ok (join_host_port host (codes "80"))
  unfolding parse_tcp trim_brackets
  plain_default host (ne, bare, word) c l = rw (trim_space-none host word.0) (
      accepts_default host host ne (cut_scheme-none host word.1) (split_bare_none host bare.0 c)
        (ground arith) (rw (trim_right_brackets-none host bare) (trim_left_brackets-none host bare))
        ne l)

  opened_default :
      (host s : Text)
      → IsHost host
      → IsWord s
      → trim_right_brackets s ≡ host
      → split_host_port (b'[' ∷ s) ≡ none
      → lookup_port (codes "80") ≡ true
      → parse_tcp parse lookup_port (b'[' ∷ s) ≡ ok (join_host_port host (codes "80"))
  unfolding parse_tcp starts_bracket has_space contains
  opened_default [] s (ne, bare, word) w t p l = absurd (ne refl)
  opened_default (c ∷ host) s (ne, bare, word) w t p l = rw (trim_space-none (b'[' ∷ s) w.0) (
      accepts_default (b'[' ∷ s) (c ∷ host) (λ e. absurd (ground arith))
        (cut_scheme-none (b'[' ∷ s) w.1) p (ground arith) (trim_opened c host s bare t) ne l)

  -- Without a port it is 80: a host without a colon is accepted as it is, and any host in brackets,
  -- such as an IPv6 address, with or without the bracket that closes them. The host is not empty and
  -- has no bracket, space or slash, and LookupPort accepts 80.
  pub parse_tcp_default_port :
      (host : Text)
      → IsHost host
      → lookup_port (codes "80") ≡ true
      → let parsed = ok (join_host_port host (codes "80")) in
        (contains b':' host ≡ false → parse_tcp parse lookup_port host ≡ parsed)
        × (parse_tcp parse lookup_port (b'[' ∷ (host ++ codes "]")) ≡ parsed)
        × (parse_tcp parse lookup_port (b'[' ∷ host) ≡ parsed)
  parse_tcp_default_port host h l =
      let bare = h.1 in
      let word = h.2 in
      (
        λ c. plain_default host h c l,
        opened_default host (host ++ codes "]") h (IsWord-append host (codes "]") word closing)
            (trim_right_brackets-closed host bare) (split_closed_none host bare.1) l,
        opened_default host host h word (trim_right_brackets-none host bare)
            (split_opened_none host bare.1) l,
      )
