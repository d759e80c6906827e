-- ===== src/Proxy/Headers.antt =====
-- Which headers a forwarded message keeps.
use go_portless.Common.{
  ◌≡◌, refl, ◌∙◌, Bool, true, false, ◌||◌, none, List, [], ◌∷◌, arith, if◌then◌else◌, Text, codes,
  text_eq, lookup, lookup-delete,
}
use go_portless.Proxy.{
  Header, canonical, values, del, del_all, tokens, hop_by_hop, strip_hop_by_hop,
}

-- Some of the names is the key's, whatever its letters' case.
unfoldable pub names_key : List Text → Text → Bool
names_key [] key = false
names_key (n ∷ ns) key = text_eq (canonical n) key || names_key ns key

lookup-del_all :
    (ns : List Text) (h : Header) (key : Text)
    → lookup key (del_all ns h) ≡ (if names_key ns key then none else lookup key h)
unfolding del_all del names_key
lookup-del_all [] h key = refl
lookup-del_all (n ∷ ns) h key =
    ground (arith, lookup-del_all ns (del h n) key, lookup-delete (canonical n) key h)

pub strip_cases :
    {A : Type 0} (b c : Bool) {u v : A} (w n : A)
    → u ≡ (if b then n else v)
    → v ≡ (if c then n else w)
    → u ≡ (if b || c then n else w)
strip_cases true c w n p q = p
strip_cases false c w n p q = p ∙ q

-- Of a message's headers the proxy forwards exactly those that are neither hop-by-hop nor named
-- by a token of a Connection header, on whichever of its lines and in whatever spelling; what it
-- forwards keeps its values.
pub lookup-strip_hop_by_hop :
    (h : Header) (key : Text)
    → lookup key (strip_hop_by_hop h) ≡ (
        if names_key hop_by_hop key || names_key (tokens (values (codes "Connection") h)) key
        then none
        else lookup key h)
unfolding strip_hop_by_hop
lookup-strip_hop_by_hop h key =
    strip_cases (names_key hop_by_hop key) (names_key (tokens (values (codes "Connection") h)) key)
      (lookup key h) none
      (lookup-del_all hop_by_hop (del_all (tokens (values (codes "Connection") h)) h) key)
      (lookup-del_all (tokens (values (codes "Connection") h)) h key)
