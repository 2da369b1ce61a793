-- ===== src/Middleware/Stack.antt =====
-- What the wrappers do to a request, and what is logged of it.
use mathlib.Core.List.{append-nil}
use payment_rail_simulator.Prelude.{
  ℕ, ◌≤◌, some, Bool, true, false, ◌≡◌, ◌≢◌, refl, sym, ap, ◌∙◌, inl, inr, List, [], ◌∷◌, ◌++◌,
  ◌==◌, nat_eq, string_eq, if◌then◌else◌, Bool-cases, arith, nat_beq_iff, eq_iff,
}
use payment_rail_simulator.Middleware.{
  Request, Op, set_header, write_header, write, sent_status, http_error, StatusRecorder, record_op,
  record_ops, rate_limit_exceeded, http_request, Server, Handler, add_line, cors_headers,
  cors_middleware, logging_middleware, rate_limit, wrapped_route,
}

-- No WriteHeader.
abbrev IsBodyOnly : List Op → Type 0
IsBodyOnly [] = Unit {0}
IsBodyOnly (write_header code ∷ ops) = ⊥
IsBodyOnly (_ ∷ ops) = IsBodyOnly ops

-- At most one WriteHeader, of a code from 200 to 999, and none after a Write.
abbrev pub IsPlain : List Op → Type 0
IsPlain [] = Unit {0}
IsPlain (set_header k v ∷ ops) = IsPlain ops
IsPlain (write_header code ∷ ops) = (200 ≤ code) × (code ≤ 999) × IsBodyOnly ops
IsPlain (write body ∷ ops) = IsBodyOnly ops

append_one : (xs : List Op) (x : Op) (ys : List Op) → (xs ++ x ∷ []) ++ ys ≡ xs ++ x ∷ ys
append_one [] x ys = refl
append_one (z ∷ xs) x ys = ap (λ zs. z ∷ zs) (append_one xs x ys)

-- The recorder passes everything on.
record_ops-response_writer :
    (r : StatusRecorder) (ops : List Op)
    → (record_ops r ops).response_writer ≡ r.response_writer ++ ops
unfolding record_ops
record_ops-response_writer r [] = sym (append-nil r.response_writer)
record_ops-response_writer r (set_header k v ∷ ops) =
    record_ops-response_writer (record_op r (set_header k v)) ops
    ∙ append_one r.response_writer (set_header k v) ops
record_ops-response_writer r (write_header code ∷ ops) =
    record_ops-response_writer (record_op r (write_header code)) ops
    ∙ append_one r.response_writer (write_header code) ops
record_ops-response_writer r (write body ∷ ops) =
    record_ops-response_writer (record_op r (write body)) ops
    ∙ append_one r.response_writer (write body) ops

body_keeps_status :
    (r : StatusRecorder) (ops : List Op)
    → r.status_code ≢ 0
    → IsBodyOnly ops
    → (record_ops r ops).status_code ≡ r.status_code
unfolding record_ops
body_keeps_status r [] set h = refl
body_keeps_status r (set_header k v ∷ ops) set h =
    body_keeps_status (record_op r (set_header k v)) ops set h
body_keeps_status r (write_header code ∷ ops) set h = absurd h
body_keeps_status r (write body ∷ ops) set h =
    let zero_test : (r.status_code == 0) ≡ false = ground (arith, nat_beq_iff r.status_code 0) in
    body_keeps_status (record_op r (write body)) ops (rw zero_test set) h ∙ rw zero_test refl

record_ops-sent_status :
    (r : StatusRecorder) (ops : List Op)
    → r.status_code ≡ 200
    → IsPlain ops
    → sent_status ops ≡ some (record_ops r ops).status_code
unfolding record_ops sent_status
record_ops-sent_status r [] ok h = rw ok refl
record_ops-sent_status r (set_header k v ∷ ops) ok h =
    record_ops-sent_status (record_op r (set_header k v)) ops ok h
record_ops-sent_status r (write_header code ∷ ops) ok h =
    let kept : (record_ops (record_op r (write_header code)) ops).status_code ≡ code =
      body_keeps_status (record_op r (write_header code)) ops (λ z. omega (arith, h.0, z)) h.2 in
    let low = h.0 in let high = h.1 in rw kept (ground arith)
record_ops-sent_status r (write body ∷ ops) ok h =
    let two_hundred : (if r.status_code == 0 then 200 else r.status_code) ≡ 200 = rw ok refl in
    ap some (
      sym (
        body_keeps_status (record_op r (write body)) ops (λ z. ground (arith, two_hundred)) h
        ∙ two_hundred))

module _ {L S : Type 0} (allow : L → Bool × L) (next : Handler L S) (request : Request)
    (w : Server L S) where
  abbrev admitted : Server L S
  admitted = record w { limiter = (allow w.limiter).1 }

  -- How a request through the wrappers ends, without the headers of CORS.
  pub data Served : List Op → Server L S → Type 0 where
    preflight : request.method ≡ "OPTIONS" → Served (write_header 200 ∷ []) w
    refused :
        request.method ≢ "OPTIONS"
        → (allow w.limiter).0 ≡ false
        → Served (http_error 429 "Rate limit exceeded") (
            add_line
              (http_request request.method request.path 429)
              (add_line rate_limit_exceeded admitted))
    passed :
        (code : ℕ)
        → request.method ≢ "OPTIONS"
        → (allow w.limiter).0 ≡ true
        → sent_status (next request admitted).0 ≡ some code
        → Served
            (next request admitted).0
            (add_line (http_request request.method request.path code) (next request admitted).1)

  -- A request to a route of `main` is answered with the CORS headers and then: if it is an OPTIONS
  -- request, with 200, without asking the limiter, the handler or the log; if the limiter refuses it,
  -- with 429, and the handler is not called; and with what the handler does otherwise. The one line
  -- that is logged of a request names the status that is sent, where the handler calls WriteHeader
  -- at most once, with a code from 200 to 999, and not after a Write.
  pub wrapped_route-Served :
      IsPlain (next request admitted).0
      → (ops : List Op) × (v : Server L S) × (wrapped_route allow next request w
          ≡ (cors_headers ++ ops, v))
        × Served ops v
  unfolding cors_middleware logging_middleware rate_limit record_ops
  wrapped_route-Served plain = elim (Bool-cases (request.method == "OPTIONS")) [
    | inl options ↦ (
      write_header 200 ∷ [],
      w,
      rw options refl,
      preflight ((eq_iff request.method "OPTIONS").0 options),
    )
    | inr other ↦
        let no_options : request.method ≢ "OPTIONS" = λ e.
          let yes_it_is = (eq_iff request.method "OPTIONS").1 e in
          ground (arith, other, yes_it_is) in
        by_limiter other no_options (allow w.limiter) refl
  ]
    where
      by_limiter :
          (request.method == "OPTIONS") ≡ false
          → request.method ≢ "OPTIONS"
          → (a : Bool × L) → allow w.limiter ≡ a
          → (ops : List Op) × (v : Server L S) × (wrapped_route allow next request w
              ≡ (cors_headers ++ ops, v))
            × Served ops v
      by_limiter other no_options (true, l) e =
          let fresh : StatusRecorder = record { response_writer = []; status_code = 200 } in
          let ops = (next request admitted).0 in
          let code = (record_ops fresh ops).status_code in
          (
            ops,
            add_line (http_request request.method request.path code) (next request admitted).1,
            rw
                (
                  other,
                  e,
                  record_ops-response_writer fresh (next request (record w { limiter = l })).0,
                )
                refl,
            passed code no_options (ap (λ x. x.0) e) (record_ops-sent_status fresh ops refl plain),
          )
      by_limiter other no_options (false, l) e = (
        http_error 429 "Rate limit exceeded",
        add_line (http_request request.method request.path 429)
            (add_line rate_limit_exceeded admitted),
        rw (other, e) refl,
        refused no_options (ap (λ x. x.0) e),
      )
