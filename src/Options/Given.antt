-- ===== src/Options/Given.antt =====
-- What the accepted options come to.
use sandobox_cpp.Base.{
  ℕ, ◌≡◌, ◌<◌, ◌≤◌, ◌^◌, refl, Bytes, List, [], ◌∷◌, Bool, true, false, not, ◌||◌, text, ltb,
  not_ltb→le, ◌==◌, digits_value, some, if◌then◌else◌, arith,
}
use sandobox_cpp.Result.{
  Result, Error, ok, err, out_of_fuel, Ensures, returns, refuses, Ensures-if, Ensures-map,
}
use sandobox_cpp.Options.Numbers.{parse_num, parse_num-eq-ok_iff, parse_num_returns}
use sandobox_cpp.Options.{Options, Found, invalid, port_number, restarts_number}

-- The text that was given last for each option.
pub record Given : Type 0 where
  pub host : Bytes
  pub port : Bytes
  pub sandbox_id : Bytes
  pub target_type : Bytes
  pub metrics_port : Bytes
  pub no_seccomp : Bool
  pub max_restarts : Bytes

abbrev pub default_texts : Given
default_texts = record {
  host = text "127.0.0.1";
  port = text "1234";
  sandbox_id = text "cpp-sandbox-1";
  target_type = text "local";
  metrics_port = text "9090";
  no_seccomp = false;
  max_restarts = text "3";
}

abbrev pub give : Found → Given → Given
give (opt, arg) g = record {
  host = if opt == b'h' then arg else g.host;
  port = if opt == b'p' then arg else g.port;
  sandbox_id = if opt == b'i' then arg else g.sandbox_id;
  target_type = if opt == b't' then arg else g.target_type;
  metrics_port = if opt == b'm' then arg else g.metrics_port;
  no_seccomp = opt == b'n' || g.no_seccomp;
  max_restarts = if opt == b'r' then arg else g.max_restarts;
}

-- The options up to the first request for help.
unfoldable pub given : List Found → Given → Given
given [] g = g
given ((opt, arg) ∷ rest) g =
    let more = given rest (give (opt, arg) g) in if opt == b'H' then g else more

unfoldable pub asks_help : List Found → Bool
asks_help [] = false
asks_help ((opt, arg) ∷ rest) = opt == b'H' || asks_help rest

-- The options have the texts' values: numbers are read in decimal and are in range.
pub record Describes (g : Given) (o : Options) : Type 0 where
  pub host : o.host ≡ g.host
  pub port : digits_value 0 g.port ≡ some o.port
  pub port_fits : o.port < 2 ^ 16
  pub sandbox_id : o.sandbox_id ≡ g.sandbox_id
  pub target_type : o.target_type ≡ g.target_type
  pub metrics_port : digits_value 0 g.metrics_port ≡ some o.metrics_port
  pub metrics_port_fits : o.metrics_port < 2 ^ 16
  pub use_seccomp : o.use_seccomp ≡ not g.no_seccomp
  pub max_restarts : digits_value 0 g.max_restarts ≡ some o.max_restarts
  pub max_restarts_fit : o.max_restarts < 2 ^ 32

abbrev pub Value : ℕ → Bytes → ℕ → Type 0
Value w arg n = (digits_value 0 arg ≡ some n) × (n < 2 ^ w)

parse_num-Value : (w : ℕ) (arg : Bytes) → Ensures (Value w arg) (parse_num w arg)
parse_num-Value w arg =
    Ensures-map (λ n e. let (_, value, fits) = (parse_num-eq-ok_iff w arg n).0 e in (value, fits))
      (parse_num_returns w arg)

kept_port :
    (arg : Bytes) (e : Error) {r : Result ℕ}
    → Ensures (Value 64 arg) r
    → Ensures (Value 16 arg) (elim r [
      | ok n ↦ if ltb 65535 n then err e else ok n
      | err _ ↦ err e
      | out_of_fuel ↦ out_of_fuel
    ])
kept_port arg e (returns {a = n} (value, _)) =
    Ensures-if (ltb 65535 n) (λ _. refuses)
      λ small. returns (value, let le : n ≤ 65535 = not_ltb→le 65535 n small in omega arith)
kept_port arg e refuses = refuses

kept_restarts :
    (arg : Bytes) (e : Error) {r : Result ℕ}
    → Ensures (Value 32 arg) r
    → Ensures (Value 32 arg) (elim r [ ok n ↦ ok n | err _ ↦ err e | out_of_fuel ↦ out_of_fuel ])
kept_restarts arg e (returns h) = returns h
kept_restarts arg e refuses = refuses

pub port_number-Value : (flag arg : Bytes) → Ensures (Value 16 arg) (port_number flag arg)
unfolding port_number
port_number-Value flag arg = kept_port arg (invalid flag arg) (parse_num-Value 64 arg)

pub restarts_number-Value : (arg : Bytes) → Ensures (Value 32 arg) (restarts_number arg)
unfolding restarts_number
restarts_number-Value arg =
    kept_restarts arg (invalid (text "--max-restarts") arg) (parse_num-Value 32 arg)

module _ {g : Given} {o : Options} (arg : Bytes) (d : Describes g o) where
  pub gives_host : Describes (give (b'h', arg) g) (record o { host = arg })
  gives_host = record {
    host = refl;
    port = d.port;
    port_fits = d.port_fits;
    sandbox_id = d.sandbox_id;
    target_type = d.target_type;
    metrics_port = d.metrics_port;
    metrics_port_fits = d.metrics_port_fits;
    use_seccomp = d.use_seccomp;
    max_restarts = d.max_restarts;
    max_restarts_fit = d.max_restarts_fit;
  }

  pub gives_sandbox_id : Describes (give (b'i', arg) g) (record o { sandbox_id = arg })
  gives_sandbox_id = record {
    host = d.host;
    port = d.port;
    port_fits = d.port_fits;
    sandbox_id = refl;
    target_type = d.target_type;
    metrics_port = d.metrics_port;
    metrics_port_fits = d.metrics_port_fits;
    use_seccomp = d.use_seccomp;
    max_restarts = d.max_restarts;
    max_restarts_fit = d.max_restarts_fit;
  }

  pub gives_target_type : Describes (give (b't', arg) g) (record o { target_type = arg })
  gives_target_type = record {
    host = d.host;
    port = d.port;
    port_fits = d.port_fits;
    sandbox_id = d.sandbox_id;
    target_type = refl;
    metrics_port = d.metrics_port;
    metrics_port_fits = d.metrics_port_fits;
    use_seccomp = d.use_seccomp;
    max_restarts = d.max_restarts;
    max_restarts_fit = d.max_restarts_fit;
  }

  pub gives_no_seccomp : Describes (give (b'n', arg) g) (record o { use_seccomp = false })
  gives_no_seccomp = record {
    host = d.host;
    port = d.port;
    port_fits = d.port_fits;
    sandbox_id = d.sandbox_id;
    target_type = d.target_type;
    metrics_port = d.metrics_port;
    metrics_port_fits = d.metrics_port_fits;
    use_seccomp = refl;
    max_restarts = d.max_restarts;
    max_restarts_fit = d.max_restarts_fit;
  }

  pub gives_port :
      (v : ℕ)
      → digits_value 0 arg ≡ some v
      → v < 2 ^ 16
      → Describes (give (b'p', arg) g) (record o { port = v })
  gives_port v value fits = record {
    host = d.host;
    port = value;
    port_fits = fits;
    sandbox_id = d.sandbox_id;
    target_type = d.target_type;
    metrics_port = d.metrics_port;
    metrics_port_fits = d.metrics_port_fits;
    use_seccomp = d.use_seccomp;
    max_restarts = d.max_restarts;
    max_restarts_fit = d.max_restarts_fit;
  }

  pub gives_metrics_port :
      (v : ℕ)
      → digits_value 0 arg ≡ some v
      → v < 2 ^ 16
      → Describes (give (b'm', arg) g) (record o { metrics_port = v })
  gives_metrics_port v value fits = record {
    host = d.host;
    port = d.port;
    port_fits = d.port_fits;
    sandbox_id = d.sandbox_id;
    target_type = d.target_type;
    metrics_port = value;
    metrics_port_fits = fits;
    use_seccomp = d.use_seccomp;
    max_restarts = d.max_restarts;
    max_restarts_fit = d.max_restarts_fit;
  }

  pub gives_max_restarts :
      (v : ℕ)
      → digits_value 0 arg ≡ some v
      → v < 2 ^ 32
      → Describes (give (b'r', arg) g) (record o { max_restarts = v })
  gives_max_restarts v value fits = record {
    host = d.host;
    port = d.port;
    port_fits = d.port_fits;
    sandbox_id = d.sandbox_id;
    target_type = d.target_type;
    metrics_port = d.metrics_port;
    metrics_port_fits = d.metrics_port_fits;
    use_seccomp = d.use_seccomp;
    max_restarts = value;
    max_restarts_fit = fits;
  }

  pub asks : Describes g (record o { help = true })
  asks = record {
    host = d.host;
    port = d.port;
    port_fits = d.port_fits;
    sandbox_id = d.sandbox_id;
    target_type = d.target_type;
    metrics_port = d.metrics_port;
    metrics_port_fits = d.metrics_port_fits;
    use_seccomp = d.use_seccomp;
    max_restarts = d.max_restarts;
    max_restarts_fit = d.max_restarts_fit;
  }
