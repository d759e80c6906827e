-- ===== src/Net/HostPort.antt =====
-- SplitHostPort takes apart what JoinHostPort has put together.
use go_portless.Common.{
  ℕ, ◌≡◌, refl, inl, inr, false, ◌||◌, none, some, [], ◌∷◌, ◌++◌, arith, ◌==◌, Bool-cases, Text,
  contains, contains-append, cut_at-append,
}
use go_portless.Net.{
  cut_last, split_closed, split_bracketed, split_plain, split_host_port, join_host_port, host_of,
}

-- Neither bracket occurs, as in any host name and any address without its brackets.
abbrev pub IsBare : Text → Type 0
IsBare s = (contains b'[' s ≡ false) × (contains b']' s ≡ false)

abbrev pub IsPort : Text → Type 0
IsPort s = IsBare s × (contains b':' s ≡ false)

pub cut_last-none : (c : ℕ) (s : Text) → contains c s ≡ false → cut_last c s ≡ none
unfolding cut_last contains
cut_last-none c [] h = refl
cut_last-none c (x ∷ s) h = ground (arith, cut_last-none c s)

cut_last-append :
    (c : ℕ) (xs ys : Text) → contains c ys ≡ false → cut_last c (xs ++ c ∷ ys) ≡ some (xs, ys)
unfolding cut_last
cut_last-append c [] ys h = ground (arith, cut_last-none c ys h)
cut_last-append c (x ∷ xs) ys h = ground (arith, cut_last-append c xs ys h)

contains-cons : (c x : ℕ) (s : Text) → contains c (x ∷ s) ≡ (x == c || contains c s)
unfolding contains
contains-cons c x s = refl

split_plain-join :
    (host port : Text)
    → contains b':' host ≡ false
    → IsBare host
    → IsPort port
    → split_plain (host ++ b':' ∷ port) ≡ some (host, port)
unfolding split_plain
split_plain-join host port c (o, l) ((po, pl), pc) =
    rw (cut_last-append b':' host port pc, split_plain)
      (rw (
        c,
        contains-append b'[' host (b':' ∷ port),
        contains-append b']' host (b':' ∷ port),
        o,
        l,
        contains-cons b'[' b':' port,
        contains-cons b']' b':' port,
        po,
        pl,
      ))

split_closed-join :
    (host port : Text)
    → IsBare host
    → IsPort port
    → split_closed (host ++ b']' ∷ b':' ∷ port) host (b':' ∷ port) ≡ some (host, port)
unfolding split_closed
split_closed-join host port (o, l) ((po, pl), pc) = rw (
  pc,
  contains-append b'[' host (b']' ∷ b':' ∷ port),
  o,
  contains-cons b'[' b']' (b':' ∷ port),
  contains-cons b'[' b':' port,
  po,
  pl,
)

split_bracketed-join :
    (host port : Text)
    → IsBare host
    → IsPort port
    → split_bracketed (host ++ b']' ∷ b':' ∷ port) ≡ some (host, port)
unfolding split_bracketed
split_bracketed-join host port h p =
    rw (cut_at-append b']' host (b':' ∷ port) h.1, split_bracketed)
      (split_closed-join host port h p)

split_host_port-plain :
    (host port : Text)
    → contains b':' host ≡ false
    → IsBare host
    → IsPort port
    → split_host_port (host ++ b':' ∷ port) ≡ some (host, port)
unfolding split_host_port
split_host_port-plain [] port c h p = split_plain-join [] port c h p
split_host_port-plain (x ∷ host) port c h p =
    let e : (x == b'[') ≡ false = ground (arith, contains-cons b'[' x host) in
    rw e (split_plain-join (x ∷ host) port c h p)

pub split_host_port-join_host_port :
    (host port : Text)
    → IsBare host
    → IsPort port
    → split_host_port (join_host_port host port) ≡ some (host, port)
unfolding join_host_port
split_host_port-join_host_port host port h p = elim (Bool-cases (contains b':' host)) [
  | inl colon ↦ rw colon (unfold split_host_port in split_bracketed-join host port h p)
  | inr plain ↦ rw plain (split_host_port-plain host port plain h p)
]

-- The registry looks a dialed address up under its host: of a host and a port, joined by
-- JoinHostPort with brackets around an address with colons, hostOf finds the host again. The host
-- and the port are written without brackets, and the port without a colon.
pub host_of-join_host_port :
    (host port : Text) → IsBare host → IsPort port → host_of (join_host_port host port) ≡ host
unfolding host_of
host_of-join_host_port host port h p = rw (split_host_port-join_host_port host port h p, host_of)
