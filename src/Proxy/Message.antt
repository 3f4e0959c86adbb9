-- ===== src/Proxy/Message.antt =====
-- What a handler of net/http reads and writes (internal/lib/transports/http/proxy, with the status
-- responses of internal/lib/transports/grpc/grpc.go).
use krouter.Prelude.{ℤ, pos, Bool, Option, Str, codes}
use krouter.Http.{Header, Request, header_set}

-- What is written after the header: http.Error, http.Redirect, or only WriteHeader.
pub data Reply : Type 0 where
  unwritten : Reply
  error_text : Str → ℤ → Reply
  redirected : Str → ℤ → Reply
  bare : ℤ → Reply

-- A ResponseWriter.
pub record Writer : Type 0 where
  pub header : Header
  pub reply : Reply

-- A request as the proxy reads it: `uri` is what URL.RequestURI answers, and `server_name` that of
-- the TLS connection, if it is one.
pub record Incoming : Type 0 where
  pub request : Request
  pub host : Str
  pub raw_query : Str
  pub uri : Str
  pub server_name : Option Str
  pub has_body : Bool

abbrev pub set_header : Str → Str → Writer → Writer
set_header name value w = record w { header = header_set w.header name value }

abbrev pub http_error : Str → ℤ → Writer → Writer
http_error message status w = record w { reply = error_text message status }

-- `grpc.WriteStatus`
unfoldable pub write_status : Str → Str → Writer → Writer
unfolding header_set
write_status code message w =
    record (set_header (codes "Grpc-Message") message (
      set_header (codes "Grpc-Status") code
        (set_header (codes "Content-Type") (codes "application/grpc") w))) {
          reply = bare (pos 200);
        }

-- `grpc.Unimplemented`, `grpc.Unavailable` and `grpc.Internal`
abbrev pub grpc_unimplemented : Writer → Writer
grpc_unimplemented w = write_status (codes "12") (codes "no matching rule") w

abbrev pub grpc_unavailable : Writer → Writer
grpc_unavailable w = write_status (codes "14") (codes "no ready endpoints") w

abbrev pub grpc_internal : Writer → Writer
grpc_internal w = write_status (codes "13") (codes "invalid backend reference") w
