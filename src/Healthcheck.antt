-- ===== src/Healthcheck.antt =====
-- backend/cmd/healthcheck/main.go: the container's healthcheck, a process that makes one request to
-- the backend beside it. What the request meets is a parameter; deadlines are left out.
pub mod Alive
use grab_seat.Base.{ℕ, [], ◌++◌, ◌==◌, if◌then◌else◌}
use grab_seat.Base.Text.{Str, codes, str_eq}
use grab_seat.Service.{Result, ok, err}
use grab_seat.Config.{Environment}

unfoldable pub health_url : Str → Str
health_url port =
    codes "http://127.0.0.1:" ++ (if str_eq port [] then codes "8080" else port) ++ codes "/healthz"

-- The exit code for what the GET returned: an error, or a response with its status.
unfoldable pub exit_code : Result ℕ → ℕ
exit_code (err e) = 1
exit_code (ok status) = if status == 200 then 0 else 1

-- main, with what a GET of an URL returns
unfoldable pub healthcheck : Environment → (Str → Result ℕ) → ℕ
unfolding health_url exit_code
healthcheck env get = exit_code (get (health_url (env (codes "BACKEND_PORT"))))
