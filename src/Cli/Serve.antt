-- ===== src/Cli/Serve.antt =====
-- cmd/portless/serve.go: cmdServe and runServe, with what runServe opens and closes. What the
-- authority, the proxy, the system and the control server answer are arguments; Serve of net/http
-- closes its listener when it returns.
pub mod Released
mod Tests
use go_portless.Common.{
  ℕ, Bool, true, false, Option, none, some, List, [], ◌∷◌, ◌++◌, if◌then◌else◌, Text, ◌==◌,
}
use go_portless.Errors.{Err, errorf}
use go_portless.Net.{itoa, pos}
use go_portless.Dial.{Result, ok, failed}
use go_portless.Control.Socket.{SocketDir, ensure_socket_dir}

-- How serving ends: the context is cancelled, or Serve returns.
pub data Ending : Type 0 where
  cancelled : Ending
  returned : Option Err → Ending

-- serveOptions, and what runServe is answered.
pub record ServeEnv : Type 0 where
  pub proxy_addr : Text
  pub tls : Bool
  pub load_authority : Option Err
  pub start_proxy : Result Text
  pub socket : Text
  pub socket_dir : SocketDir
  pub socket_file : Option Bool
  pub listen : Option Err
  pub chmod : Option Err
  pub ending : Ending

-- What runServe opens; Listen makes the listener and its file.
pub data Part : Type 0 where
  registry proxy listener file : Part

pub data Deed : Type 0 where
  opens shuts : Part → Deed

-- What is opened, with its deferred close.
abbrev pub holding : Part → ℕ × List Deed → ℕ × List Deed
holding p (code, deeds) = (code, opens p ∷ deeds ++ shuts p ∷ [])

abbrev pub served : Ending → ℕ × List Deed
served cancelled = (0, shuts listener ∷ [])
served (returned none) = (0, shuts listener ∷ [])
served (returned (some e)) = (1, shuts listener ∷ [])

abbrev pub listening : Option Err → Ending → ℕ × List Deed
listening (some e) ending = (1, opens listener ∷ opens file ∷ [])
listening none ending =
    let (code, deeds) = served ending in
    (code, opens listener ∷ opens file ∷ deeds ++ shuts file ∷ [])

abbrev pub listened : Option Err → Option Err → Ending → ℕ × List Deed
listened (some e) chmod ending = (1, [])
listened none chmod ending = listening chmod ending

abbrev pub dir_ensured : Option Err → Option Err → Option Err → Ending → ℕ × List Deed
dir_ensured (some e) listen chmod ending = (1, [])
dir_ensured none listen chmod ending = listened listen chmod ending

-- The control server, once there is a proxy or none is wanted.
abbrev pub controlled : ServeEnv → ℕ × List Deed
controlled x =
    dir_ensured (ensure_socket_dir x.socket_dir x.socket x.socket_file).0 x.listen x.chmod x.ending

abbrev pub proxy_started : Result Text → ℕ × List Deed → ℕ × List Deed
proxy_started (failed e) rest = (1, [])
proxy_started (ok addr) rest = holding proxy rest

abbrev pub authority_loaded : Option Err → ℕ × List Deed → ℕ × List Deed
authority_loaded (some e) rest = (1, [])
authority_loaded none rest = rest

abbrev pub proxied : ServeEnv → Text → ℕ × List Deed
proxied x [] = controlled x
proxied x (c ∷ addr) =
    let started = proxy_started x.start_proxy (controlled x) in
    if x.tls then authority_loaded x.load_authority started else started

-- runServe: the exit code, and what is opened and closed.
unfoldable pub run_serve : ServeEnv → ℕ × List Deed
run_serve x = holding registry (proxied x x.proxy_addr)

-- cmdServe, for the flags as they are parsed.
abbrev pub serve_flags : Bool → ServeEnv → ServeEnv
serve_flags no_proxy x = if no_proxy then record x { proxy_addr = [] } else x

abbrev pub serve_failed : ℕ → Option Err
serve_failed code =
    if code == 0 then none else some (errorf "daemon exited with code %d" (itoa (pos code) ∷ []))

unfoldable pub cmd_serve : Option Err → Bool → ServeEnv → Option Err
cmd_serve (some e) no_proxy x = some e
cmd_serve none no_proxy x = serve_failed (run_serve (serve_flags no_proxy x)).0
