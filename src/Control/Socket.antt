-- ===== src/Control/Socket.antt =====
-- control/socket.go: the path of the control socket and the file that may stand there. The
-- environment and the answers of the file system are arguments.
use go_portless.Common.{
  ℕ, Bool, true, false, Option, none, some, [], ◌∷◌, ◌++◌, if◌then◌else◌, Text, codes, text_eq,
}
use go_portless.Errors.{Err, errorf, wrap}
use go_portless.Net.{itoa, pos}
use go_portless.Dial.{Result, ok, failed}

-- DefaultSocketPath: PORTLESS_SOCKET, XDG_RUNTIME_DIR, runtime.GOOS, UserCacheDir, TempDir and
-- Getuid are given. The paths have no parts that filepath.Join would clean.
abbrev pub cached_path : Result Text → Text → Text
cached_path (ok dir) temp_path = dir ++ codes "/portless/portless.sock"
cached_path (failed e) temp_path = temp_path

unfoldable pub default_socket_path : Text → Text → Text → Result Text → Text → ℕ → Text
default_socket_path (c ∷ path) runtime goos cache temp uid = c ∷ path
default_socket_path [] (c ∷ runtime) goos cache temp uid = c ∷ runtime ++ codes "/portless.sock"
default_socket_path [] [] goos cache temp uid =
    let temp_path = temp ++ codes "/portless-" ++ itoa (pos uid) ++ codes "/portless.sock" in
    if text_eq goos (codes "darwin") then cached_path cache temp_path else temp_path

-- What MkdirAll and Remove answer.
pub record SocketDir : Type 0 where
  pub make_dir : Option Err
  pub remove : Option Err

abbrev pub stale_removed : Option Err → Option Err × Option Bool
stale_removed (some e) = (some (wrap "control: remove stale socket: %w" [] e), some true)
stale_removed none = (none, none)

-- What Lstat finds, if anything: whether it is a socket.
abbrev pub looked_up : SocketDir → Text → Option Bool → Option Err × Option Bool
looked_up d path none = (none, none)
looked_up d path (some false) =
    (some (errorf "control: %s exists and is not a socket" (path ∷ [])), some false)
looked_up d path (some true) = stale_removed d.remove

abbrev pub dir_made : SocketDir → Text → Option Err → Option Bool → Option Err × Option Bool
dir_made d path (some e) file = (some (wrap "control: create socket dir: %w" [] e), file)
dir_made d path none file = looked_up d path file

-- EnsureSocketDir, with what stands at the path before and after.
unfoldable pub ensure_socket_dir : SocketDir → Text → Option Bool → Option Err × Option Bool
ensure_socket_dir d path file = dir_made d path d.make_dir file
