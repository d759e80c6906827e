-- ===== src/Proxy/Forward/Copied.antt =====
-- What a client is told of the backend's response.
use mathlib.Core.List.{append-nil, append_assoc}
use go_portless.Common.{
  ◌≡◌, refl, sym, ◌∙◌, inl, inr, Bool, ◌||◌, Option, none, List, [], ◌∷◌, ◌++◌, arith,
  if◌then◌else◌, Text, codes, text_eq, text_eq_iff, Bool-cases, lookup, delete, lookup-insert,
}
use go_portless.Dial.{Result, ok, failed}
use go_portless.Http.{Request}
use go_portless.Proxy.{
  Header, canonical, or_empty, values, del, del_all, tokens, hop_by_hop, strip_hop_by_hop,
  forwarded,
}
use go_portless.Proxy.Headers.{names_key, strip_cases, lookup-strip_hop_by_hop}
use go_portless.Proxy.Forward.{
  header_add, add_values, copy_header, Response, Replied, gateway_error, copied, forward_reply,
  forward,
}

-- The values under a key as it is written.
abbrev pub values_at : Text → Header → List Text
values_at key h = or_empty (lookup key h)

-- The values of all lines of a message whose key is this one, in whatever spelling, in order.
unfoldable pub all_values : Text → Header → List Text
all_values key [] = []
all_values key ((k, vs) ∷ h) = (if text_eq (canonical k) key then vs else []) ++ all_values key h

values_at-header_add :
    (key k v : Text) (h : Header)
    → values_at key (header_add k v h)
      ≡ values_at key h ++ (if text_eq (canonical k) key then v ∷ [] else [])
unfolding header_add values
values_at-header_add key k v h = elim (Bool-cases (text_eq (canonical k) key)) [
  | inl e ↦
      rw (lookup-insert (canonical k) key (values k h ++ v ∷ []) h)
        (rw e (rw ((text_eq_iff (canonical k) key).0 e) refl))
  | inr n ↦
      rw (lookup-insert (canonical k) key (values k h ++ v ∷ []) h)
        (rw n (sym (append-nil (values_at key h))))
]

values_at-add_values :
    (key k : Text) (vs : List Text) (h : Header)
    → values_at key (add_values k vs h)
      ≡ values_at key h ++ (if text_eq (canonical k) key then vs else [])
unfolding add_values
values_at-add_values key k [] h = elim (Bool-cases (text_eq (canonical k) key)) [
  | inl e ↦ rw e (sym (append-nil (values_at key h)))
  | inr n ↦ rw n (sym (append-nil (values_at key h)))
]
values_at-add_values key k (v ∷ vs) h =
    values_at-add_values key k vs (header_add k v h)
    ∙ rw (values_at-header_add key k v h) (elim (Bool-cases (text_eq (canonical k) key)) [
      | inl e ↦ rw e (append_assoc (values_at key h) (v ∷ []) vs)
      | inr n ↦ rw n (append-nil (values_at key h ++ []))
    ])

values_at-copy_header :
    (key : Text) (from to : Header)
    → values_at key (copy_header from to) ≡ values_at key to ++ all_values key from
unfolding copy_header all_values
values_at-copy_header key [] to = sym (append-nil (values_at key to))
values_at-copy_header key ((k, vs) ∷ from) to =
    values_at-copy_header key from (add_values k vs to)
    ∙ rw (values_at-add_values key k vs to) (
        append_assoc (values_at key to) (if text_eq (canonical k) key then vs else [])
          (all_values key from))

-- The keys are canonical, as net/http makes them when it reads a message.
unfoldable pub IsCanonical : Header → Type 0
IsCanonical [] = Unit
IsCanonical ((k, vs) ∷ h) = (canonical k ≡ k) × IsCanonical h

delete-IsCanonical : (j : Text) (h : Header) → IsCanonical h → IsCanonical (delete j h)
unfolding delete IsCanonical
delete-IsCanonical j [] c = tt
delete-IsCanonical j ((k, vs) ∷ h) (c, cs) = elim (Bool-cases (text_eq k j)) [
  | inl e ↦ rw e (delete-IsCanonical j h cs)
  | inr n ↦ rw n (c, delete-IsCanonical j h cs)
]

all_values-delete :
    (key j : Text) (h : Header)
    → IsCanonical h
    → all_values key (delete j h) ≡ (if text_eq j key then [] else all_values key h)
unfolding delete all_values IsCanonical
all_values-delete key j [] c = ground arith
all_values-delete key j ((k, vs) ∷ h) (c, cs) = elim (Bool-cases (text_eq k j)) [
  | inl e ↦
      let same : canonical k ≡ j = c ∙ (text_eq_iff k j).0 e in
      rw e (rw same (all_values-delete key j h cs ∙ ground arith))
  | inr n ↦ rw n (
      rw (c, all_values-delete key j h cs)
        (ground (arith, text_eq_iff k j, text_eq_iff k key, text_eq_iff j key)))
]

del_all-IsCanonical : (ns : List Text) (h : Header) → IsCanonical h → IsCanonical (del_all ns h)
unfolding del_all del
del_all-IsCanonical [] h c = c
del_all-IsCanonical (n ∷ ns) h c =
    del_all-IsCanonical ns (del h n) (delete-IsCanonical (canonical n) h c)

all_values-del_all :
    (key : Text) (ns : List Text) (h : Header)
    → IsCanonical h
    → all_values key (del_all ns h) ≡ (if names_key ns key then [] else all_values key h)
unfolding del_all del names_key
all_values-del_all key [] h c = refl
all_values-del_all key (n ∷ ns) h c = ground (
  arith,
  all_values-del_all key ns (del h n) (delete-IsCanonical (canonical n) h c),
  all_values-delete key (canonical n) h c,
)

all_values-strip :
    (key : Text) (h : Header)
    → IsCanonical h
    → all_values key (strip_hop_by_hop h) ≡ (
        if names_key hop_by_hop key || names_key (tokens (values (codes "Connection") h)) key
        then []
        else all_values key h)
unfolding strip_hop_by_hop
all_values-strip key h c =
    let named = tokens (values (codes "Connection") h) in
    strip_cases (names_key hop_by_hop key) (names_key named key) (all_values key h) []
      (all_values-del_all key hop_by_hop (del_all named h) (del_all-IsCanonical named h c))
      (all_values-del_all key named h c)

-- The message has some of these headers only: none that is hop-by-hop or named by a token of a
-- Connection header.
abbrev pub is_stripped : Header → Text → Bool
is_stripped h key =
    names_key hop_by_hop key || names_key (tokens (values (codes "Connection") h)) key

copied-header :
    (key : Text) (h : Header)
    → IsCanonical h
    → values_at key (copy_header (strip_hop_by_hop h) [])
      ≡ (if is_stripped h key then [] else all_values key h)
unfolding lookup
copied-header key h c = values_at-copy_header key (strip_hop_by_hop h) [] ∙ all_values-strip key h c

-- The reply for what the transport has answered.
abbrev pub IsCopied : Result Response → Replied → Type 0
IsCopied (failed e) r = r ≡ gateway_error e
IsCopied (ok resp) r =
    (reply : Response) × (r ≡ copied reply)
    × (reply.status ≡ resp.status)
    × (reply.body ≡ resp.body)
    × ((key : Text)
        → values_at key reply.header
          ≡ (if is_stripped resp.header key then [] else all_values key resp.header))

forward_reply-IsCopied :
    (answer : Result Response)
    → ((resp : Response) → answer ≡ ok resp → IsCanonical resp.header)
    → IsCopied answer (forward_reply answer)
forward_reply-IsCopied (failed e) c = refl
forward_reply-IsCopied (ok resp) c = (
  record {
    status = resp.status;
    header = copy_header (strip_hop_by_hop resp.header) [];
    body = resp.body;
  },
  refl,
  refl,
  refl,
  λ key. copied-header key resp.header (c resp refl),
)

-- The proxy forwards a request and copies the response without what is meant for one hop. The
-- request that it sends has exactly those headers of the client's, with their values, that are
-- neither hop-by-hop nor named by a token of a Connection header. If the transport fails, the reply
-- is a gateway error; otherwise it has the response's status and body, and for every key the values
-- of all lines of the response with this key, in order, unless the key is hop-by-hop or named by a
-- token of the response's Connection header: then it has none. The keys of a response are canonical.
pub forward-IsCopied :
    (host_rewrite : Text → Option Text) (transport : Request × Header → Result Response)
    (q : Request) (h : Header)
    → ((resp : Response)
        → transport (forwarded host_rewrite q h) ≡ ok resp
        → IsCanonical resp.header)
    → ((key : Text)
        → lookup key (forwarded host_rewrite q h).1
          ≡ (if is_stripped h key then none else lookup key h))
      × IsCopied (transport (forwarded host_rewrite q h)) (forward host_rewrite transport q h)
unfolding forward forwarded
forward-IsCopied host_rewrite transport q h c =
    (lookup-strip_hop_by_hop h, forward_reply-IsCopied (transport (forwarded host_rewrite q h)) c)
