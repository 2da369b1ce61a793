-- ===== src/Middleware.antt =====
-- middleware.go: the wrappers around the handlers.
pub mod Stack
use payment_rail_simulator.Prelude.{
  ℕ, leb, ltb, not, ◌&&◌, Option, none, some, Bool, true, false, String, List, [], ◌∷◌, ◌++◌, ◌==◌,
  nat_eq, string_eq, if◌then◌else◌,
}

pub record Request : Type 0 where
  pub method : String
  pub path : String

-- What a handler does with its `http.ResponseWriter`.
pub data Op : Type 0 where
  set_header : String → String → Op
  write_header : ℕ → Op
  write : String → Op

-- The codes that `net/http` takes in a WriteHeader; it panics at any other.
abbrev pub is_status : ℕ → Bool
is_status code = leb 100 code && leb code 999

-- A code that is sent ahead of the response: 1xx but for 101.
abbrev pub is_informational : ℕ → Bool
is_informational code = ltb code 200 && not (code == 101)

-- The status of the response that `net/http` sends: that of the first WriteHeader which is not of an
-- informational code, or 200 from the first Write or at the end of the handler; `none` for a panic.
unfoldable pub sent_status : List Op → Option ℕ
sent_status [] = some 200
sent_status (set_header k v ∷ ops) = sent_status ops
sent_status (write_header code ∷ ops) =
    let rest = sent_status ops in
    if is_status code then if is_informational code then rest else some code else none
sent_status (write body ∷ ops) = some 200

-- `http.Error`
abbrev pub http_error : ℕ → String → List Op
http_error code text = write_header code ∷ write text ∷ []

pub record StatusRecorder : Type 0 where
  pub response_writer : List Op
  pub status_code : ℕ

-- The methods of the recorder; `Header` is that of the writer inside.
abbrev pub record_op : StatusRecorder → Op → StatusRecorder
record_op r (set_header k v) = record r {
  response_writer = r.response_writer ++ set_header k v ∷ [];
}
record_op r (write_header code) = record {
  response_writer = r.response_writer ++ write_header code ∷ [];
  status_code = code;
}
record_op r (write body) = record {
  response_writer = r.response_writer ++ write body ∷ [];
  status_code = if r.status_code == 0 then 200 else r.status_code;
}

unfoldable pub record_ops : StatusRecorder → List Op → StatusRecorder
record_ops r [] = r
record_ops r (op ∷ ops) = record_ops (record_op r op) ops

pub data LogLine : Type 0 where
  rate_limit_exceeded : LogLine
  http_request : String → String → ℕ → LogLine

-- The state of the limiter, the lines that have been logged, and all else that handlers change.
pub record Server (L S : Type 0) : Type 0 where
  pub limiter : L
  pub log : List LogLine
  pub rest : S

-- A handler that returns. One that panics, as at the WriteHeader of a code that is no status, is not
-- modelled: what stands after it in the wrappers does not run.
abbrev pub Handler : Type 0 → Type 0 → Type 0
Handler L S = Request → Server L S → List Op × Server L S

abbrev pub cors_headers : List Op
cors_headers =
    set_header "Access-Control-Allow-Origin" "*"
    ∷ set_header "Access-Control-Allow-Methods" "POST, GET, OPTIONS"
    ∷ set_header "Access-Control-Allow-Headers" "Content-Type"
    ∷ []

module _ {L S : Type 0} where
  abbrev pub add_line : LogLine → Server L S → Server L S
  add_line line w = record w { log = w.log ++ line ∷ [] }

  unfoldable pub cors_middleware : Handler L S → Handler L S
  cors_middleware next request w =
      let (ops, v) = next request w in
      if request.method == "OPTIONS"
      then (cors_headers ++ write_header 200 ∷ [], w)
      else (cors_headers ++ ops, v)

  unfoldable pub logging_middleware : Handler L S → Handler L S
  logging_middleware next request w =
      let (ops, v) = next request w in
      let recorder = record_ops (record { response_writer = []; status_code = 200 }) ops in
      (
        recorder.response_writer,
        add_line (http_request request.method request.path recorder.status_code) v,
      )

  abbrev pub if_allowed : Handler L S → Request → Server L S → Bool × L → List Op × Server L S
  if_allowed next request w (true, l) = next request (record w { limiter = l })
  if_allowed next request w (false, l) = (
    http_error 429 "Rate limit exceeded",
    add_line rate_limit_exceeded (record w { limiter = l }),
  )

  -- `allow` is `limiter.Allow()` of `golang.org/x/time/rate`.
  unfoldable pub rate_limit : (L → Bool × L) → Handler L S → Handler L S
  rate_limit allow next request w = if_allowed next request w (allow w.limiter)

  -- The wrappers of a route of `main`.
  abbrev pub wrapped_route : (L → Bool × L) → Handler L S → Handler L S
  wrapped_route allow next = cors_middleware (logging_middleware (rate_limit allow next))
