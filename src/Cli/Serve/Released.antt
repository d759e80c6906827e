-- ===== src/Cli/Serve/Released.antt =====
-- The daemon gives back what it has taken.
use go_portless.Common.{
  ℕ, ◌+◌, ◌≡◌, refl, ◌↔◌, Bool, true, false, ◌&&◌, ◌||◌, not, Option, none, some, List, [], ◌∷◌,
  ◌++◌, arith, if◌then◌else◌, Text, text_eq,
}
use go_portless.Errors.{Err}
use go_portless.Dial.{Result, ok, failed}
use go_portless.Control.Socket.{ensure_socket_dir}
use go_portless.Cli.Serve.{
  Ending, cancelled, returned, ServeEnv, Part, registry, proxy, listener, file, Deed, opens, shuts,
  holding, dir_ensured, controlled, proxy_started, authority_loaded, proxied, run_serve,
}

unfoldable pub is_part : Part → Part → Bool
is_part registry registry = true
is_part proxy proxy = true
is_part listener listener = true
is_part file file = true
is_part p q = false

unfoldable pub opened : Part → List Deed → ℕ
opened q [] = 0
opened q (opens p ∷ deeds) = (if is_part p q then 1 else 0) + opened q deeds
opened q (shuts p ∷ deeds) = opened q deeds

unfoldable pub shut : Part → List Deed → ℕ
shut q [] = 0
shut q (opens p ∷ deeds) = shut q deeds
shut q (shuts p ∷ deeds) = (if is_part p q then 1 else 0) + shut q deeds

opened-append : (q : Part) (ds es : List Deed) → opened q (ds ++ es) ≡ opened q ds + opened q es
unfolding opened
opened-append q [] es = omega arith
opened-append q (opens p ∷ ds) es = ground (arith, opened-append q ds es)
opened-append q (shuts p ∷ ds) es = opened-append q ds es

shut-append : (q : Part) (ds es : List Deed) → shut q (ds ++ es) ≡ shut q ds + shut q es
unfolding shut
shut-append q [] es = omega arith
shut-append q (opens p ∷ ds) es = shut-append q ds es
shut-append q (shuts p ∷ ds) es = ground (arith, shut-append q ds es)

abbrev pub is_none : {A : Type 0} → Option A → Bool
is_none none = true
is_none (some a) = false

abbrev pub is_ok : {A : Type 0} → Result A → Bool
is_ok (ok a) = true
is_ok (failed e) = false

abbrev pub is_control : Part → Bool
is_control listener = true
is_control file = true
is_control p = false

-- Everything that stands before the control server has succeeded.
abbrev pub is_proxied : ServeEnv → Bool
is_proxied x =
    text_eq x.proxy_addr [] || ((not x.tls || is_none x.load_authority) && is_ok x.start_proxy)

-- The control socket has been made, and `rest`.
abbrev pub listens_and : ServeEnv → Bool → Bool
listens_and x rest =
    is_proxied x
    && (is_none (ensure_socket_dir x.socket_dir x.socket x.socket_file).0
        && (is_none x.listen && rest))

abbrev pub is_orderly : Ending → Bool
is_orderly cancelled = true
is_orderly (returned e) = is_none e

-- The exit code is 0 exactly if `good`; each part is closed as often as it is opened, but for the
-- listener and its file if `leaks`.
abbrev pub IsReleased : Bool → Bool → ℕ × List Deed → Type 0
IsReleased good leaks (code, deeds) =
    ((code ≡ 0) ↔ (good ≡ true))
    × ((p : Part) → opened p deeds ≡ shut p deeds + (if leaks && is_control p then 1 else 0))

failed-IsReleased : IsReleased false false (1, [])
unfolding opened shut
failed-IsReleased = (ground arith, λ p. refl)

holding-IsReleased :
    (p : Part) (good leaks : Bool) (r : ℕ × List Deed)
    → IsReleased good leaks r
    → IsReleased good leaks (holding p r)
unfolding opened shut
holding-IsReleased p good leaks (code, deeds) (c, even) = (
  c,
  λ q.
      ground
        (arith, opened-append q deeds (shuts p ∷ []), shut-append q deeds (shuts p ∷ []), even q),
)

control_parts :
    (p : Part)
    → (if is_part listener p then 1 else 0) + ((if is_part file p then 1 else 0) + 0)
      ≡ 0 + (if is_control p then 1 else 0)
unfolding is_part
control_parts registry = refl
control_parts proxy = refl
control_parts listener = refl
control_parts file = refl

ensured-IsReleased :
    (dir listen chmod : Option Err) (ending : Ending)
    → IsReleased
        (is_none dir && (is_none listen && (is_none chmod && is_orderly ending)))
        (is_none dir && (is_none listen && not (is_none chmod)))
        (dir_ensured dir listen chmod ending)
unfolding opened shut is_part
ensured-IsReleased (some e) listen chmod ending = failed-IsReleased
ensured-IsReleased none (some e) chmod ending = failed-IsReleased
ensured-IsReleased none none (some e) ending = (ground arith, control_parts)
ensured-IsReleased none none none cancelled = (ground arith, λ p. omega arith)
ensured-IsReleased none none none (returned none) = (ground arith, λ p. omega arith)
ensured-IsReleased none none none (returned (some e)) = (ground arith, λ p. omega arith)

started-IsReleased :
    (start : Result Text) (good leaks : Bool) (r : ℕ × List Deed)
    → IsReleased good leaks r
    → IsReleased (is_ok start && good) (is_ok start && leaks) (proxy_started start r)
started-IsReleased (failed e) good leaks r h = failed-IsReleased
started-IsReleased (ok addr) good leaks r h = holding-IsReleased proxy good leaks r h

loaded-IsReleased :
    (load : Option Err) (good leaks : Bool) (r : ℕ × List Deed)
    → IsReleased good leaks r
    → IsReleased (is_none load && good) (is_none load && leaks) (authority_loaded load r)
loaded-IsReleased (some e) good leaks r h = failed-IsReleased
loaded-IsReleased none good leaks r h = h

-- The daemon is served until it is stopped, or its control server ends without an error.
abbrev pub is_served : ServeEnv → Bool
is_served x = listens_and x (is_none x.chmod && is_orderly x.ending)

proxied-IsReleased :
    (x : ServeEnv) (addr : Text) (tls : Bool) (load : Option Err) (start : Result Text)
    (good leaks : Bool)
    → IsReleased good leaks (controlled x)
    → (let ready = text_eq addr [] || ((not tls || is_none load) && is_ok start) in
        IsReleased
          (ready && good)
          (ready && leaks)
          (proxied (record x { tls = tls; load_authority = load; start_proxy = start }) addr))
unfolding text_eq
proxied-IsReleased x [] tls load start good leaks h = h
proxied-IsReleased x (c ∷ addr) false load start good leaks h =
    started-IsReleased start good leaks (controlled x) h
proxied-IsReleased x (c ∷ addr) true none start good leaks h =
    started-IsReleased start good leaks (controlled x) h
proxied-IsReleased x (c ∷ addr) true (some e) start good leaks h = failed-IsReleased

-- The daemon exits with 0 exactly if it has been able to start, which is to load its authority and
-- to start its proxy where these are wanted, to make room for the control socket, to listen on it
-- and to set its mode, and has then been stopped, or its control server has ended without an error.
-- Whatever fails, the registry, the proxy, the listener of the control socket and its file are each
-- closed or removed as often as they have been opened; except that, if the mode of the socket cannot
-- be set, the listener and its file are left.
pub run_serve-IsReleased :
    (x : ServeEnv) → IsReleased (is_served x) (listens_and x (not (is_none x.chmod))) (run_serve x)
unfolding run_serve
run_serve-IsReleased x =
    let dir = (ensure_socket_dir x.socket_dir x.socket x.socket_file).0 in
    holding-IsReleased registry (is_served x) (listens_and x (not (is_none x.chmod)))
      (proxied x x.proxy_addr)
      (proxied-IsReleased x x.proxy_addr x.tls x.load_authority x.start_proxy
        (is_none dir && (is_none x.listen && (is_none x.chmod && is_orderly x.ending)))
        (is_none dir && (is_none x.listen && not (is_none x.chmod)))
        (ensured-IsReleased dir x.listen x.chmod x.ending))
