-- ===== src/Metrics/Tests.antt =====
-- The theorems on the metrics at concrete inputs.
use sandobox_cpp.Base.{
  c_string, length, ◌++◌, ℕ, ◌≡◌, ◌↔◌, refl, Bytes, [], ◌∷◌, true, ◌&&◌, none, some, text, decimal,
  digits_onto, bytes_eq, starts_with, if◌then◌else◌,
}
use sandobox_cpp.Metrics.Types.{MetricsExporter}
use sandobox_cpp.Metrics.Order.{bytes_lt}
use sandobox_cpp.Metrics.{counter, gauge, render_prometheus, render_json}
use sandobox_cpp.Metrics.Server.{MetricsServer, Binding, start, stop, exported_by, handle_client}
use sandobox_cpp.Metrics.Server.Sockets.{start_leaks_iff}
use sandobox_cpp.Metrics.Server.Answers.{
  behind, blank_line, is_served, promised, handle_client_answers,
}

-- The values are whole numbers here.
abbrev two_metrics : MetricsExporter ℕ
unfolding counter gauge
two_metrics =
    counter (text "jobs_total") 3 ((text "type", text "local") ∷ [])
      (gauge (text "depth") 7 [] (record { metrics = [] }))

rendered_test :
    render_prometheus decimal two_metrics
    ≡ text
        "# HELP depth redisops metric\n# TYPE depth gauge\ndepth 7\n\n# HELP jobs_total redisops metric\n# TYPE jobs_total counter\njobs_total{type=\"local\"} 3\n\n"
unfolding two_metrics render_prometheus bytes_eq bytes_lt decimal digits_onto
rendered_test = refl

json_test :
    render_json decimal two_metrics
    ≡ text "[{\"name\":\"depth\",\"value\":7},{\"name\":\"jobs_total\",\"value\":3}]"
unfolding two_metrics render_json decimal digits_onto
json_test = refl

abbrev listening_server : MetricsServer ℕ
listening_server = record {
  port = 9090;
  server_fd = some 3;
  exporter = none;
  running = true;
  open_fds = 3 ∷ [];
}

abbrev good_binding : Binding
good_binding = record { socket = some 4; bound = true; listening = true }

start_leaks_iff_example :
    (((start good_binding listening_server).0 ≡ true) ↔ ((true && true && true) ≡ true))
    × (((stop (start good_binding listening_server).1).open_fds ≡ [])
        ↔ (listening_server.server_fd ≡ none))
start_leaks_iff_example = start_leaks_iff good_binding listening_server refl (λ d e f. cc)

abbrev health_request : Bytes
health_request = text "GET /health HTTP/1.1\r\n\r\n"

handle_client_answers_example :
    let request = c_string health_request in
    let served = is_served (exported_by decimal listening_server) request in
    let body = promised decimal listening_server.exporter request in
    (response : Bytes) × (handle_client decimal listening_server (some health_request)
      ≡ some response)
    × (starts_with
          (if served then text "HTTP/1.1 200 OK\r\n" else text "HTTP/1.1 404 Not Found\r\n")
          response
        ≡ true)
    × (behind (text "Content-Length: ") response
        ≡ some (decimal (length body) ++ (text "\r\nConnection: close\r\n\r\n" ++ body)))
    × (behind blank_line response ≡ some body)
handle_client_answers_example = handle_client_answers decimal listening_server health_request
