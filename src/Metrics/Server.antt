-- ===== src/Metrics/Server.antt =====
-- class MetricsServer of sandbox/src/metrics.cpp: its listening socket, and the answer to a client.
pub mod Sockets
pub mod Answers
use sandobox_cpp.Base.{
  c_string, close_fd, ℕ, ◌≡◌, ◌≢◌, ◌↔◌, ◌⊎◌, inl, inr, refl, Bytes, List, [], ◌∷◌, ◌++◌, length,
  take, filter, Bool, true, false, not, ◌&&◌, Option, none, some, ◌==◌, contains, text, decimal,
  if◌then◌else◌, arith,
}
use sandobox_cpp.Metrics.Types.{MetricsExporter}
use sandobox_cpp.Metrics.{render_prometheus}

-- `open_fds` are the sockets that the server has opened and not closed.
pub record MetricsServer (V : Type 0) : Type 0 where
  pub port : ℕ
  pub server_fd : Option ℕ
  pub exporter : Option (MetricsExporter V)
  pub running : Bool
  pub open_fds : List ℕ

-- What socket, bind and listen answer.
pub record Binding : Type 0 where
  pub socket : Option ℕ
  pub bound : Bool
  pub listening : Bool

abbrev pub give_up : {V : Type 0} → ℕ → MetricsServer V → Bool × MetricsServer V
give_up d s = (false, record s { server_fd = none; open_fds = close_fd d s.open_fds })

-- start with a socket
unfoldable pub listen_on : {V : Type 0} → ℕ → Binding → MetricsServer V → Bool × MetricsServer V
listen_on d b s =
    if b.bound
    then if b.listening then (true, record s { running = true }) else give_up d s
    else give_up d s

unfoldable pub start : {V : Type 0} → Binding → MetricsServer V → Bool × MetricsServer V
unfolding listen_on
start b s = elim b.socket [
  | none ↦ (false, record s { server_fd = none })
  | some d ↦ listen_on d b (record s { server_fd = some d; open_fds = d ∷ s.open_fds })
]

unfoldable pub stop : {V : Type 0} → MetricsServer V → MetricsServer V
stop s = elim s.server_fd [
  | none ↦ record s { running = false }
  | some d ↦ record s { running = false; server_fd = none; open_fds = close_fd d s.open_fds }
]

unfoldable pub build_response : Bytes → ℕ → Bytes
build_response body code =
    text "HTTP/1.1 "
    ++ (decimal code
        ++ (text " "
            ++ ((if code == 200 then text "OK" else text "Not Found")
                ++ (text
                      "\r\nContent-Type: text/plain; version=0.0.4; charset=utf-8\r\nContent-Length: "
                    ++ (decimal (length body) ++ (text "\r\nConnection: close\r\n\r\n" ++ body))))))

abbrev pub health_route : Bytes → Bytes × ℕ
health_route request =
    if contains (text "GET /health") request then (text "ok\n", 200) else ([], 404)

-- the body and the code, where `exported` is what the exporter renders, if there is one
unfoldable pub route : Option Bytes → Bytes → Bytes × ℕ
route none request = health_route request
route (some metrics) request =
    if contains (text "GET /metrics") request then (metrics, 200) else health_route request

-- set_exporter, of a pointer that is not null
unfoldable pub set_exporter : {V : Type 0} → MetricsExporter V → MetricsServer V → MetricsServer V
set_exporter e s = record s { exporter = some e }

-- what the exporter renders, if there is one, where `print` is operator<< of a double
unfoldable pub exported_by : {V : Type 0} → (V → Bytes) → MetricsServer V → Option Bytes
unfolding render_prometheus
exported_by print s = elim s.exporter [ none ↦ none | some e ↦ some (render_prometheus print e) ]

-- What is given to the one call of send, whose result is not read, before the client's socket is closed on
-- every branch; `received` is what recv stores of the request, none for a result that is not above 0.
unfoldable pub handle_client :
    {V : Type 0} → (V → Bytes) → MetricsServer V → Option Bytes → Option Bytes
unfolding build_response c_string route exported_by
handle_client print s none = none
handle_client print s (some received) =
    let (body, code) = route (exported_by print s) (c_string received) in
    some (build_response body code)
