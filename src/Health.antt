-- ===== src/Health.antt =====
-- health.go: whether the program runs, and whether what it needs is there.
use payment_rail_simulator.Prelude.{
  ℕ, ◌≡◌, ◌↔◌, refl, ◌⊎◌, inl, inr, String, Option, none, some, ◌==◌, string_eq, if◌then◌else◌,
  arith,
}
use payment_rail_simulator.Handlers.{Answer, text_answer, json_answer}

pub data ComponentStatus : Type 0 where
  up down : ComponentStatus

pub record DependencyHealth : Type 0 where
  pub status : ComponentStatus
  pub error : Option String

pub data ReadyStatus : Type 0 where
  ready not_ready : ReadyStatus

-- `Components` has the two keys "postgres" and "kafka".
pub record ReadinessResponse : Type 0 where
  pub status : ReadyStatus
  pub postgres : DependencyHealth
  pub kafka : DependencyHealth

abbrev pub is_up : DependencyHealth
is_up = record { status = up; error = none }

abbrev pub is_down : String → DependencyHealth
is_down reason = record { status = down; error = some reason }

-- A Ping, `none` where it is answered.
abbrev pub pinged : Option String → DependencyHealth
pinged none = is_up
pinged (some reason) = is_down reason

-- `kafkaClient`, `none` for nil.
abbrev pub kafka_health : Option (Option String) → DependencyHealth
kafka_health none = is_down "Kafka client is not initialized"
kafka_health (some ping) = pinged ping

-- The status and the code, which each check sets when it fails.
abbrev pub checked : ReadyStatus × ℕ → DependencyHealth → ReadyStatus × ℕ
checked so_far h = elim h.status [ up ↦ so_far | down ↦ (not_ready, 503) ]

unfoldable pub handle_ready :
    String → Option String → Option (Option String) → Answer ReadinessResponse
handle_ready method db_ping kafka_client =
    let postgres = pinged db_ping in
    let kafka = kafka_health kafka_client in
    let result = checked (checked (ready, 200) postgres) kafka in
    if method == "GET"
    then json_answer result.1 (record { status = result.0; postgres = postgres; kafka = kafka })
    else text_answer 405

-- The body is the constant status "ok".
unfoldable pub handle_health : String → Answer String
handle_health method = if method == "GET" then json_answer 200 "ok" else text_answer 405

-- What the answer says of the two pings.
pub record ShowsHealth (db_ping : Option String) (kafka_client : Option (Option String)) (code : ℕ)
    (r : ReadinessResponse) : Type 0 where
  pub verdict :
      ((code ≡ 200) × (r.status ≡ ready) × (db_ping ≡ none) × (kafka_client ≡ some none))
      ⊎ ((code ≡ 503)
          × (r.status ≡ not_ready)
          × ((r.postgres.status ≡ down) ⊎ (r.kafka.status ≡ down)))
  pub shows_postgres : (r.postgres.status ≡ up) ↔ (db_ping ≡ none)
  pub shows_kafka : (r.kafka.status ≡ up) ↔ (kafka_client ≡ some none)

pinged_up : (o : Option String) → ((pinged o).status ≡ up) ↔ (o ≡ none)
pinged_up none = (λ h. refl, λ h. refl)
pinged_up (some e) = (λ h. ground arith, λ h. ground arith)

kafka_up : (k : Option (Option String)) → ((kafka_health k).status ≡ up) ↔ (k ≡ some none)
kafka_up none = (λ h. ground arith, λ h. ground arith)
kafka_up (some none) = (λ h. refl, λ h. refl)
kafka_up (some (some e)) = (λ h. ground arith, λ h. ground arith)

-- A GET of the readiness is answered with 200 and "ready", and then Postgres has answered a Ping and a
-- client of Kafka exists and has answered one; or with 503 and "not_ready", and then one of the two is
-- shown as down. Each is shown as up exactly if it has answered its Ping.
pub handle_ready-ShowsHealth :
    (db_ping : Option String) (kafka_client : Option (Option String))
    → (code : ℕ) × (r : ReadinessResponse) × (handle_ready "GET" db_ping kafka_client
        ≡ json_answer code r)
      × ShowsHealth db_ping kafka_client code r
unfolding handle_ready
handle_ready-ShowsHealth none (some none) = (
  200,
  _,
  refl,
  record {
    verdict = inl (refl, refl, refl, refl);
    shows_postgres = pinged_up none;
    shows_kafka = kafka_up (some none);
  },
)
handle_ready-ShowsHealth none k = (
  503,
  _,
  refl,
  record {
    verdict = inr (refl, refl, inr refl);
    shows_postgres = pinged_up none;
    shows_kafka = kafka_up k;
  },
)
handle_ready-ShowsHealth (some e) k = (
  503,
  _,
  down_first k,
  record {
    verdict = inr (refl, refl, inl refl);
    shows_postgres = pinged_up (some e);
    shows_kafka = kafka_up k;
  },
)
  where
    down_first :
        (k : Option (Option String))
        → handle_ready "GET" (some e) k
          ≡ json_answer 503
              (record { status = not_ready; postgres = is_down e; kafka = kafka_health k })
    down_first none = refl
    down_first (some none) = refl
    down_first (some (some x)) = refl
