-- ===== src/Proxy/Connect/Closed.antt =====
-- What the two handlers of CONNECT do with the connections that they open.
use go_portless.Common.{
  arith, ℕ, ◌+◌, ◌≡◌, refl, Bool, true, false, ◌&&◌, ◌||◌, ◌==◌, not, Option, none, some, List, [],
  ◌∷◌, ◌++◌, if◌then◌else◌, Text,
}
use mathlib.Core.List.{append-nil}
use go_portless.Errors.{Err}
use go_portless.Dial.{Result, ok, failed, Conn}
use go_portless.Proxy.Connect.{
  Answers, Act, responds, establishes, sends, tunnels, serves_tls, closes, terminate_tls,
  handle_connect,
}

unfoldable pub occurs_in : Conn → List Conn → Bool
occurs_in c [] = false
occurs_in c (d ∷ cs) = d == c || occurs_in c cs

unfoldable pub closings : List Act → List Conn
closings [] = []
closings (closes c ∷ acts) = c ∷ closings acts
closings (responds n ∷ acts) = closings acts
closings (establishes c ∷ acts) = closings acts
closings (sends c bytes ∷ acts) = closings acts
closings (tunnels b c ∷ acts) = closings acts
closings (serves_tls c ∷ acts) = closings acts

-- The answers to the client: an error, or the status line.
unfoldable pub replies : List Act → ℕ
replies [] = 0
replies (responds n ∷ acts) = 1 + replies acts
replies (establishes c ∷ acts) = 1 + replies acts
replies (closes c ∷ acts) = replies acts
replies (sends c bytes ∷ acts) = replies acts
replies (tunnels b c ∷ acts) = replies acts
replies (serves_tls c ∷ acts) = replies acts

-- The bytes of the client that a stream to the backend begins with.
unfoldable pub early : List Act → Text
early [] = []
early (sends c bytes ∷ acts) = bytes ++ early acts
early (responds n ∷ acts) = early acts
early (establishes c ∷ acts) = early acts
early (closes c ∷ acts) = early acts
early (tunnels b c ∷ acts) = early acts
early (serves_tls c ∷ acts) = early acts

unfoldable pub streams : List Act → Bool
streams [] = false
streams (tunnels b c ∷ acts) = true
streams (serves_tls c ∷ acts) = true
streams (sends c bytes ∷ acts) = streams acts
streams (responds n ∷ acts) = streams acts
streams (establishes c ∷ acts) = streams acts
streams (closes c ∷ acts) = streams acts

-- A connection is written to or served after it has been closed.
unfoldable pub used_closed : List Conn → List Act → Bool
used_closed cs [] = false
used_closed cs (closes c ∷ acts) = used_closed (c ∷ cs) acts
used_closed cs (responds n ∷ acts) = used_closed cs acts
used_closed cs (establishes c ∷ acts) = occurs_in c cs || used_closed cs acts
used_closed cs (sends c bytes ∷ acts) = occurs_in c cs || used_closed cs acts
used_closed cs (tunnels b c ∷ acts) = occurs_in b cs || occurs_in c cs || used_closed cs acts
used_closed cs (serves_tls c ∷ acts) = occurs_in c cs || used_closed cs acts

abbrev pub conn_of : Result Conn → List Conn
conn_of (ok c) = c ∷ []
conn_of (failed e) = []

abbrev pub client_of : Bool → Result (Conn × Text) → List Conn
client_of true (ok (c, bytes)) = c ∷ []
client_of h r = []

abbrev pub is_ok : {A : Type 0} → Result A → Bool
is_ok (ok a) = true
is_ok (failed e) = false

abbrev pub is_none : {A : Type 0} → Option A → Bool
is_none none = true
is_none (some a) = false

-- A backend has been dialed, if one is.
abbrev pub is_dialed : Bool → Answers → Bool
is_dialed true x = true
is_dialed false x = is_ok x.dial

-- The client's connection has been taken over.
abbrev pub is_taken : Bool → Answers → Bool
is_taken tls x = is_dialed tls x && x.is_hijacker && is_ok x.hijack

abbrev pub bytes_of : Result (Conn × Text) → Text
bytes_of (ok (c, bytes)) = bytes
bytes_of (failed e) = []

-- What has been opened: the client's connection, and the backend's unless TLS is terminated.
abbrev pub opened : Bool → Answers → List Conn
opened tls x =
    (if is_dialed tls x then client_of x.is_hijacker x.hijack else [])
    ++ (if tls then [] else conn_of x.dial)

-- The bytes of the client have reached the backend, or there are none.
abbrev pub is_flushed : Text → Option Err → Bool
is_flushed [] o = true
is_flushed (b ∷ bytes) o = is_none o

-- Bytes are passed on.
abbrev pub is_streaming : Bool → Answers → Bool
is_streaming tls x =
    is_taken tls x
    && is_none x.write_established
    && (if tls then true else is_flushed (bytes_of x.hijack) x.copy_buffered)

-- What is closed at the end of the streams: the client's connection by the TLS server; both by
-- closeBoth, if one of them has no CloseWrite.
abbrev pub closed_by_streams : Bool → Answers → List Conn
closed_by_streams tls x =
    if is_streaming tls x && not (not tls && x.client_half && x.backend_half)
    then opened tls x
    else []

abbrev pub IsConnected : Bool → Answers → List Act → Type 0
IsConnected tls x acts =
    (closings acts ≡ closed_by_streams tls x ++ opened tls x)
    × (replies acts ≡ (if is_taken tls x && not (is_none x.write_established) then 0 else 1))
    × (streams acts ≡ is_streaming tls x)
    × (used_closed [] acts ≡ false)
    × (streams acts ≡ true → early acts ≡ (if tls then [] else bytes_of x.hijack))

cases-IsConnected :
    (tls : Bool) (dial : Result Conn) (is_hijacker : Bool) (hijack : Result (Conn × Text))
    (write copy : Option Err) (client_half backend_half : Bool)
    → (let x : Answers = record {
      dial = dial;
      is_hijacker = is_hijacker;
      hijack = hijack;
      write_established = write;
      copy_buffered = copy;
      client_half = client_half;
      backend_half = backend_half;
    } in
        IsConnected tls x (handle_connect tls x))
unfolding handle_connect terminate_tls closings replies early streams used_closed occurs_in
cases-IsConnected true dial false hijack write copy ch bh = (refl, refl, refl, refl, λ h. refl)
cases-IsConnected true dial true (failed e) write copy ch bh = (refl, refl, refl, refl, λ h. refl)
cases-IsConnected true dial true (ok (c, bytes)) (some e) copy ch bh =
    (refl, refl, refl, refl, λ h. refl)
cases-IsConnected true dial true (ok (c, bytes)) none copy ch bh =
    (refl, refl, refl, refl, λ h. refl)
cases-IsConnected false (failed e) is_hijacker hijack write copy ch bh =
    (refl, refl, refl, refl, λ h. absurd (ground arith))
cases-IsConnected false (ok b) false hijack write copy ch bh =
    (refl, refl, refl, refl, λ h. absurd (ground arith))
cases-IsConnected false (ok b) true (failed e) write copy ch bh =
    (refl, refl, refl, refl, λ h. refl)
cases-IsConnected false (ok b) true (ok (c, bytes)) (some e) copy ch bh =
    (refl, refl, refl, refl, λ h. absurd (ground arith))
cases-IsConnected false (ok b) true (ok (c, a ∷ bytes)) none (some e) ch bh =
    (refl, refl, refl, refl, λ h. absurd (ground arith))
cases-IsConnected false (ok b) true (ok (c, [])) none copy true true =
    (refl, refl, refl, refl, λ h. refl)
cases-IsConnected false (ok b) true (ok (c, a ∷ bytes)) none none true true =
    (refl, refl, refl, refl, λ h. append-nil (a ∷ bytes))
cases-IsConnected false (ok b) true (ok (c, [])) none copy true false =
    (refl, refl, refl, refl, λ h. refl)
cases-IsConnected false (ok b) true (ok (c, a ∷ bytes)) none none true false =
    (refl, refl, refl, refl, λ h. append-nil (a ∷ bytes))
cases-IsConnected false (ok b) true (ok (c, [])) none copy false true =
    (refl, refl, refl, refl, λ h. refl)
cases-IsConnected false (ok b) true (ok (c, a ∷ bytes)) none none false true =
    (refl, refl, refl, refl, λ h. append-nil (a ∷ bytes))
cases-IsConnected false (ok b) true (ok (c, [])) none copy false false =
    (refl, refl, refl, refl, λ h. refl)
cases-IsConnected false (ok b) true (ok (c, a ∷ bytes)) none none false false =
    (refl, refl, refl, refl, λ h. append-nil (a ∷ bytes))

-- A CONNECT closes what it has opened, whichever of its calls fail: at the end each connection once,
-- the client's first. Before that, the client's connection has been closed by the TLS server, if it
-- has run, or both connections by the tunnel, if it has run and one of them has no CloseWrite; nothing
-- else is closed, and no connection is written to or served after it has been closed. The client gets
-- one answer, an error or the status line; it gets none only if its connection has been taken over and
-- the status line cannot be written. Bytes are passed on exactly if the backend has been dialed (when
-- TLS is terminated, it is not), the connection has been taken over, and the status line and the bytes
-- of the client that the server had read already have been written. A tunnel begins with these bytes;
-- a TLS server is given none of them.
pub handle_connect-IsConnected :
    (tls : Bool) (x : Answers) → IsConnected tls x (handle_connect tls x)
handle_connect-IsConnected tls x =
    cases-IsConnected tls x.dial x.is_hijacker x.hijack x.write_established x.copy_buffered
      x.client_half x.backend_half
