-- ===== src/Healthcheck/Alive.antt =====
-- backend/cmd/healthcheck with backend/config and backend/api: the healthcheck of a backend that runs
-- with the same environment.
use grab_seat.Base.{
  ℕ, Bool, true, false, ◌≡◌, refl, ◌∙◌, ap, inl, inr, [], ◌∷◌, ◌++◌, List, Option, none, some,
  Bool-cases, if◌then◌else◌,
}
use grab_seat.Base.Text.{Str, codes, str_eq}
use grab_seat.Service.{Error, link_down, Result, ok, err, Call, Reply, result_along}
use grab_seat.Config.{Environment, load, read_config, getenv}
use grab_seat.Observability.{Level, Context, trace_id_from_context}
use grab_seat.RateLimit.{Rate, Limiter}
use grab_seat.RateLimit.Keys.{Client}
use grab_seat.Store.{ping}
use grab_seat.Locking.{healthy}
use grab_seat.Api.Snapshot.{Server}
use grab_seat.Api.Handlers.{SeatRequest, handle_health}
use grab_seat.Api.Server.{HttpRequest, get_method, serve, dispatch, route, cors, get_or}
use grab_seat.Api.Middleware.{
  RequestLog, LogLine, returned, Writer, fresh_writer, handle, trace_middleware, trace_header,
  write_served, write_response, write_json, write_header, send_header, end_response, cors_headers,
}
use grab_seat.Healthcheck.{health_url, exit_code, healthcheck}

-- The status of a response, as a client sees it.
abbrev pub seen : Writer → Result ℕ
seen w = elim w.sent [ none ↦ err link_down | some (status, hs) ↦ ok status ]

-- What was written for a request; nothing, if its handler does not return.
abbrev pub writer_of : Option (Writer × List LogLine) → Writer
writer_of none = fresh_writer
writer_of (some (w, log)) = w

-- Where a backend with this environment listens.
abbrev pub backend_url : Environment → Str
backend_url env = codes "http://127.0.0.1:" ++ (load env).0.port ++ codes "/healthz"

same_port : (env : Environment) → health_url (env (codes "BACKEND_PORT")) ≡ backend_url env
unfolding health_url load read_config getenv
same_port env = elim (Bool-cases (str_eq (env (codes "BACKEND_PORT")) [])) [
  | inl unset ↦ rw unset refl
  | inr has_port ↦ rw has_port refl
]

abbrev pub health_request : Client → SeatRequest → HttpRequest
health_request client seat = record {
  method = get_method;
  path = codes "/healthz";
  client = client;
  seat = seat;
  origin = [];
  handshake = none;
}

not_begun :
    (trace_id : Str)
    → ((trace_header trace_id fresh_writer).sent ≡ none)
      × ((trace_header trace_id fresh_writer).hijacked ≡ false)
unfolding trace_header str_eq
not_begun [] = (refl, refl)
not_begun (c ∷ trace_id) = (refl, refl)

module _ (T : Rate) where
  -- The response to GET /healthz, along replies of the services.
  abbrev pub health_response :
      Level
      → Context RequestLog
      → Server
      → ℕ
      → ℕ
      → ℕ
      → Limiter T
      → Client
      → SeatRequest
      → ((c : Call) → Reply c)
      → Writer
  health_response level ctx s fuel clients time l client seat pick =
      writer_of (
        result_along pick (handle T level ctx s fuel clients time l (health_request client seat)).1)

  answers_200 :
      (level : Level) (ctx : Context RequestLog) (s : Server) (fuel clients time : ℕ)
      (l : Limiter T) (client : Client) (seat : SeatRequest) (pick : (c : Call) → Reply c)
      → seen (health_response level ctx s fuel clients time l client seat pick) ≡ ok 200
  unfolding handle serve dispatch route cors get_or handle_health ping healthy trace_middleware
      write_served write_response write_json write_header send_header end_response cors_headers
      returned str_eq
  answers_200 level ctx s fuel clients time l client seat pick =
      let (unsent, kept) = not_begun (trace_id_from_context ctx) in rw (unsent, kept) refl

  -- The healthcheck of a backend with the same environment exits with 0 if the backend answers its
  -- request, also when Postgres, Redis or both are down, and with 1 if the request fails.
  pub healthcheck_lem :
      (level : Level) (ctx : Context RequestLog) (s : Server) (fuel clients time : ℕ)
      (l : Limiter T) (client : Client) (seat : SeatRequest) (pick : (c : Call) → Reply c)
      (env : Environment) (get : Str → Result ℕ) (answers : Bool) (e : Error)
      → get (backend_url env) ≡ (
          if answers
          then seen (health_response level ctx s fuel clients time l client seat pick)
          else err e)
      → healthcheck env get ≡ (if answers then 0 else 1)
  unfolding healthcheck exit_code
  healthcheck_lem level ctx s fuel clients time l client seat pick env get true e h =
      ap exit_code (
        ap get (same_port env) ∙ (h ∙ answers_200 level ctx s fuel clients time l client seat pick))
  healthcheck_lem level ctx s fuel clients time l client seat pick env get false e h =
      ap exit_code (ap get (same_port env) ∙ h)
