-- ===== src/Proxy/Connect.antt =====
-- proxy/connect.go and proxy/tls.go: handleConnect and terminateTLS, where the copies of the tunnel
-- (which are in Pipe) and the TLS server are single acts, followed by the connections that they close.
-- What the dialer, the hijacking of the request's connection and the writes answer is given.
pub mod Closed
use go_portless.Common.{
  ℕ, Bool, true, false, ◌&&◌, Option, none, some, List, [], ◌∷◌, ◌++◌, if◌then◌else◌, Text, codes,
}
use go_portless.Errors.{Err}
use go_portless.Dial.{Result, ok, failed, Conn}

-- What a request for a tunnel is answered: DialContext; whether the response writer can be
-- hijacked, and Hijack, with the bytes of the client that the server has read already; the write of
-- the status line and the one of those bytes to the backend; and which connections have CloseWrite.
pub record Answers : Type 0 where
  pub dial : Result Conn
  pub is_hijacker : Bool
  pub hijack : Result (Conn × Text)
  pub write_established : Option Err
  pub copy_buffered : Option Err
  pub client_half : Bool
  pub backend_half : Bool

-- What the handler does, in order. `responds` is http.Error; the streams that start are given the
-- bytes of the client that they begin with.
pub data Act : Type 0 where
  responds : ℕ → Act
  establishes : Conn → Act
  sends : Conn → Text → Act
  tunnels : Conn → Conn → Act
  serves_tls : Conn → Act
  closes : Conn → Act

abbrev pub bad_gateway : ℕ
bad_gateway = 502

abbrev pub internal_server_error : ℕ
internal_server_error = 500

-- Once the status line is written: closeBoth runs, once, if the destination of a copy has no
-- CloseWrite.
abbrev pub tunneled : Answers → Conn → Conn → List Act
tunneled x backend client =
    tunnels backend client
    ∷ (if x.client_half && x.backend_half then [] else closes client ∷ closes backend ∷ [])

-- The bytes that the client sent before the hijacking, if there are any; what a copy that fails has
-- sent of them is left out.
abbrev pub flushed : Answers → Conn → Conn → Text → List Act
flushed x backend client [] = tunneled x backend client
flushed x backend client (b ∷ bytes) = elim x.copy_buffered [
  | some e ↦ []
  | none ↦ sends backend (b ∷ bytes) ∷ tunneled x backend client
]

abbrev pub established : Conn → Option Err → List Act → List Act
established client (some e) rest = []
established client none rest = establishes client ∷ rest

-- Until the deferred Close of the client's connection.
abbrev pub hijacked : Answers → Conn → Result (Conn × Text) → List Act
hijacked x backend (failed e) = responds internal_server_error ∷ []
hijacked x backend (ok (client, bytes)) =
    established client x.write_established (flushed x backend client bytes) ++ closes client ∷ []

-- Until the deferred Close of the backend's connection.
abbrev pub dialed : Answers → Result Conn → List Act
dialed x (failed e) = responds bad_gateway ∷ []
dialed x (ok backend) =
    (if x.is_hijacker then hijacked x backend x.hijack else responds internal_server_error ∷ [])
    ++ closes backend ∷ []

-- terminateTLS: the bytes that Hijack hands over are dropped. Serve returns only after the TLS
-- connection has been closed, and its first Close closes the client's connection.
abbrev pub terminated : Answers → Result (Conn × Text) → List Act
terminated x (failed e) = responds internal_server_error ∷ []
terminated x (ok (client, bytes)) =
    established client x.write_established (serves_tls client ∷ closes client ∷ [])
    ++ closes client ∷ []

unfoldable pub terminate_tls : Answers → List Act
terminate_tls x =
    if x.is_hijacker then terminated x x.hijack else responds internal_server_error ∷ []

-- handleConnect; whether the proxy terminates TLS is given.
unfoldable pub handle_connect : Bool → Answers → List Act
handle_connect tls x = if tls then terminate_tls x else dialed x x.dial
