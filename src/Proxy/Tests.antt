-- ===== src/Proxy/Tests.antt =====
-- Headers at concrete messages, and a tunnel whose client has not waited for the status line.
use go_portless.Common.{
  subst, refl, contains, lower_byte, Text, ◌≡◌, false, true, none, [], ◌∷◌, if◌then◌else◌, codes,
  lookup,
}
use go_portless.Dial.{Result, ok}
use go_portless.Http.{Request}
use go_portless.Proxy.Forward.{Response, forward}
use go_portless.Proxy.Forward.Copied.{IsCanonical, is_stripped, IsCopied, forward-IsCopied}
use go_portless.Proxy.Connect.{Answers, handle_connect}
use go_portless.Proxy.Connect.Closed.{IsConnected, handle_connect-IsConnected}
use go_portless.Proxy.{
  Header, canonical, capitalize, is_token, is_token_byte, upper_byte, forwarded,
}

abbrev message : Header
message =
    (codes "Connection", codes "close, x-foo" ∷ [])
    ∷ (codes "X-Foo", codes "1" ∷ [])
    ∷ (codes "Accept", codes "*/*" ∷ [])
    ∷ []

abbrev to_web : Request
to_web = record { url_host = codes "web"; host = codes "web" }

abbrev accept : Header
accept = (codes "Accept", codes "a" ∷ codes "b" ∷ []) ∷ []

-- A backend that answers with this header.
abbrev echo : Request × Header → Result Response
echo (q, h) = ok (record { status = 200; header = accept; body = [] })

same_response : {a b : Response} → ok a ≡ ok b → a ≡ b
same_response e = cc

accept-IsCanonical : IsCanonical accept
unfolding IsCanonical canonical is_token is_token_byte contains capitalize upper_byte lower_byte
accept-IsCanonical = (refl, tt)

echo-IsCanonical :
    (resp : Response)
    → echo (forwarded (λ h. none) to_web message) ≡ ok resp
    → IsCanonical resp.header
echo-IsCanonical resp e = subst (λ r. IsCanonical r.header) (same_response e) accept-IsCanonical

forward-IsCopied_example :
    ((key : Text)
      → lookup key (forwarded (λ h. none) to_web message).1
        ≡ (if is_stripped message key then none else lookup key message))
    × IsCopied
        (echo (forwarded (λ h. none) to_web message))
        (forward (λ h. none) echo to_web message)
forward-IsCopied_example = forward-IsCopied (λ h. none) echo to_web message echo-IsCanonical

abbrev eager : Answers
eager = record {
  dial = ok 7;
  is_hijacker = true;
  hijack = ok (3, codes "hello");
  write_established = none;
  copy_buffered = none;
  client_half = true;
  backend_half = false;
}

handle_connect-IsConnected_example : IsConnected false eager (handle_connect false eager)
handle_connect-IsConnected_example = handle_connect-IsConnected false eager
