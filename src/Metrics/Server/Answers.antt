-- ===== src/Metrics/Server/Answers.antt =====
-- What a client reads in the answer of handle_client.
use sandobox_cpp.Base.{
  c_string, ℕ, zero, suc, ◌+◌, ◌/◌, ◌%◌, ◌≡◌, ◌≢◌, inl, inr, refl, ◌∙◌, Bytes, [], ◌∷◌, ◌++◌,
  length, drop, Bool, true, false, ◌&&◌, ◌||◌, Option, none, some, is_some, ◌==◌, starts_with,
  contains, text, decimal, digits_onto, if◌then◌else◌, Bool-cases, arith, ltb,
}
use sandobox_cpp.Metrics.Types.{MetricsExporter}
use sandobox_cpp.Metrics.{render_prometheus}
use sandobox_cpp.Metrics.Server.{build_response, route, exported_by, handle_client, MetricsServer}

-- What follows the first occurrence of a text.
unfoldable pub behind : Bytes → Bytes → Option Bytes
behind pattern [] = none
behind pattern (c ∷ cs) =
    let rest = behind pattern cs in
    if starts_with pattern (c ∷ cs) then some (drop (length pattern) (c ∷ cs)) else rest

-- The end of the header of an HTTP message.
abbrev pub blank_line : Bytes
blank_line = text "\r\n\r\n"

behind-other : (c : ℕ) (cs : Bytes) → c ≢ 13 → behind blank_line (c ∷ cs) ≡ behind blank_line cs
unfolding behind starts_with
behind-other c cs h = let other : (13 == c) ≡ false = ground arith in rw other refl

behind-digits_onto :
    (f n : ℕ) (acc rest : Bytes)
    → behind blank_line (digits_onto f n acc ++ rest) ≡ behind blank_line (acc ++ rest)
unfolding digits_onto
behind-digits_onto zero n acc rest = refl
behind-digits_onto (suc f) n acc rest = elim (Bool-cases (ltb n 10)) [
  | inl small ↦ rw small (behind-other (48 + n) (acc ++ rest) (λ e. omega arith))
  | inr big ↦ rw big (
      behind-digits_onto f (n / 10) ((48 + n % 10) ∷ acc) rest
      ∙ behind-other (48 + n % 10) (acc ++ rest) (λ e. omega arith))
]

behind-decimal :
    (n : ℕ) (rest : Bytes) → behind blank_line (decimal n ++ rest) ≡ behind blank_line rest
unfolding decimal
behind-decimal n rest = behind-digits_onto (suc n) n [] rest

behind-build_response :
    (body : Bytes) (code : ℕ) → behind blank_line (build_response body code) ≡ some body
unfolding build_response behind starts_with
behind-build_response body code = behind-decimal code _ ∙ (elim (Bool-cases (code == 200)) [
  | inl good ↦ rw good (behind-decimal (length body) _)
  | inr bad ↦ rw bad (behind-decimal (length body) _)
])

-- The status that a path asks for: the metrics, where there is an exporter, and the health.
abbrev pub is_served : Option Bytes → Bytes → Bool
is_served exported request =
    is_some exported && contains (text "GET /metrics") request
    || contains (text "GET /health") request

route-is_served :
    (exported : Option Bytes) (request : Bytes)
    → (route exported request).1 ≡ (if is_served exported request then 200 else 404)
unfolding route
route-is_served none request = ground arith
route-is_served (some metrics) request = ground arith

status_line :
    (served : Bool) (body : Bytes) (code : ℕ)
    → code ≡ (if served then 200 else 404)
    → starts_with
        (if served then text "HTTP/1.1 200 OK\r\n" else text "HTTP/1.1 404 Not Found\r\n")
        (build_response body code)
      ≡ true
unfolding build_response starts_with decimal digits_onto
status_line true body code e = rw e refl
status_line false body code e = rw e refl

-- What the server promises as the body: the metrics of its exporter, if it has one and they are asked
-- for, or the answer that it is well, or nothing.
abbrev pub promised : {V : Type 0} → (V → Bytes) → Option (MetricsExporter V) → Bytes → Bytes
promised print none request = if contains (text "GET /health") request then text "ok\n" else []
promised print (some e) request =
    if contains (text "GET /metrics") request
    then render_prometheus print e
    else if contains (text "GET /health") request
    then text "ok\n"
    else []

route-promised :
    {V : Type 0} (print : V → Bytes) (s : MetricsServer V) (request : Bytes)
    → (route (exported_by print s) request).0 ≡ promised print s.exporter request
unfolding route exported_by
route-promised print s request = from s.exporter
  where
    from :
        (exporter : Option (MetricsExporter _))
        → (route (exported_by print (record s { exporter = exporter })) request).0
          ≡ promised print exporter request
    from none = ground arith
    from (some e) = ground arith

-- What follows the name of the length in the header.
behind-length :
    (served : Bool) (body : Bytes) (code : ℕ)
    → code ≡ (if served then 200 else 404)
    → behind (text "Content-Length: ") (build_response body code)
      ≡ some (decimal (length body) ++ (text "\r\nConnection: close\r\n\r\n" ++ body))
unfolding build_response behind starts_with decimal digits_onto
behind-length true body code e = rw e refl
behind-length false body code e = rw e refl

-- Every request that is received gets an answer, which is given to send: its status line says 200
-- exactly if the request asks for the metrics of a server with an exporter or for the health, and else it
-- says 404; the Content-Length is the length of the body in decimal digits; and behind the blank line
-- stands the body, and nothing else: what render_prometheus gives, `ok`, or nothing.
pub handle_client_answers :
    {V : Type 0} (print : V → Bytes) (s : MetricsServer V) (received : Bytes)
    → let request = c_string received in
      let served = is_served (exported_by print s) request in
      let body = promised print s.exporter request in
      (response : Bytes) × (handle_client print s (some received) ≡ some response)
      × (starts_with
            (if served then text "HTTP/1.1 200 OK\r\n" else text "HTTP/1.1 404 Not Found\r\n")
            response
          ≡ true)
      × (behind (text "Content-Length: ") response
          ≡ some (decimal (length body) ++ (text "\r\nConnection: close\r\n\r\n" ++ body)))
      × (behind blank_line response ≡ some body)
unfolding handle_client
handle_client_answers print s received =
    let request = c_string received in
    let code = (route (exported_by print s) request).1 in
    let body = promised print s.exporter request in
    let coded = route-is_served (exported_by print s) request in
    (
      build_response body code,
      rw (route-promised print s request) refl,
      status_line _ body code coded,
      behind-length _ body code coded,
      behind-build_response body code,
    )
