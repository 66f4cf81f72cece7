-- ===== src/Server/Writer.antt =====
-- Go's `http.ResponseWriter` as the program uses it, and the `statusWriter` of
-- internal/server/server.go, which records the status for the log.
use iptv2hdhr.Base.{
  ℕ, Bool, Option, none, some, List, [], ◌∷◌, ◌++◌, Bytes, codes, Dict, insert, if◌then◌else◌,
}

-- What a handler calls on the writer that it is given.
pub data Action : Type 0 where
  set_header : Bytes → Bytes → Action
  write_header : ℕ → Action
  write : Bytes → Action
  flush : Action

-- `sent` is the status and the header that have gone out.
pub record Response : Type 0 where
  pub header : Dict Bytes
  pub sent : Option (ℕ × Dict Bytes)
  pub body : Bytes

abbrev pub no_response : Response
no_response = record { header = []; sent = none; body = [] }

-- The first status counts, and the header as it is then.
abbrev pub first_sent : Option (ℕ × Dict Bytes) → ℕ → Dict Bytes → Option (ℕ × Dict Bytes)
first_sent none code header = some (code, header)
first_sent (some s) code header = some s

-- `WriteHeader`, for the statuses that end a response.
abbrev pub send_header : Response → ℕ → Response
send_header r code = record r { sent = first_sent r.sent code r.header }

abbrev pub append_body : Response → Bytes → Response
append_body r bytes = record r { body = r.body ++ bytes }

-- A write or a flush sends the header with the status 200 if none has been sent.
abbrev pub perform : Response → Action → Response
perform r (set_header key value) = record r { header = insert key value r.header }
perform r (write_header code) = send_header r code
perform r (write bytes) = append_body (send_header r 200) bytes
perform r flush = send_header r 200

-- `statusWriter`: `inner` is the writer that it wraps, and `flushes` says whether that is a Flusher.
pub record StatusWriter : Type 0 where
  pub inner : Response
  pub flushes : Bool
  pub status : ℕ

-- `WriteHeader` and `Flush` are its own; the header and `Write` are the wrapped writer's.
abbrev pub forward : StatusWriter → Action → StatusWriter
forward w (write_header code) = record w {
  inner = perform w.inner (write_header code);
  status = code;
}
forward w flush = if w.flushes then record w { inner = perform w.inner flush } else w
forward w (set_header key value) = record w { inner = perform w.inner (set_header key value) }
forward w (write bytes) = record w { inner = perform w.inner (write bytes) }

unfoldable pub forward_all : StatusWriter → List Action → StatusWriter
forward_all w [] = w
forward_all w (a ∷ as') = forward_all (forward w a) as'

abbrev pub new_status_writer : Bool → StatusWriter
new_status_writer flushes = record { inner = no_response; flushes = flushes; status = 200 }

-- net/http sends the header of a handler that has sent none.
abbrev pub finished : Response → Response
finished r = send_header r 200

-- `http.Error`
abbrev pub http_error : Bytes → ℕ → List Action
http_error text code =
    set_header (codes "Content-Type") (codes "text/plain; charset=utf-8")
    ∷ set_header (codes "X-Content-Type-Options") (codes "nosniff")
    ∷ write_header code
    ∷ write (text ++ codes "\n")
    ∷ []
