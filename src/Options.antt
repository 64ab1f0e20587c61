-- ===== src/Options.antt =====
-- The command line of sandbox/src/main.cpp: struct Options, parse_num and parse_args. getopt_long is
-- an argument: it is given the tables and the command line, and gives the options it finds, each with
-- its argument, up to the -1 that ends the loop.
pub mod Numbers
pub mod Given
pub mod Loop
mod Tests
use sandobox_cpp.Base.{
  ℕ, ◌≡◌, ◌^◌, Bytes, List, [], ◌∷◌, ◌++◌, Bool, true, false, text, ltb, ◌==◌, if◌then◌else◌,
}
use sandobox_cpp.Result.{Result, Error, Errc, ok, err, out_of_fuel, ◌>>=◌}
use sandobox_cpp.Options.Numbers.{parse_num, config_error}

pub record Options : Type 0 where
  pub host : Bytes
  pub port : ℕ
  pub sandbox_id : Bytes
  pub target_type : Bytes
  pub metrics_port : ℕ
  pub use_seccomp : Bool
  pub max_restarts : ℕ
  pub help : Bool

-- the members' initial values
abbrev pub defaults : Options
defaults = record {
  host = text "127.0.0.1";
  port = 1234;
  sandbox_id = text "cpp-sandbox-1";
  target_type = text "local";
  metrics_port = 9090;
  use_seccomp = true;
  max_restarts = 3;
  help = false;
}

-- name, has_arg and val of struct option
pub record LongOption : Type 0 where
  pub name : Bytes
  pub required_argument : Bool
  pub val : ℕ

abbrev long_opt : Bytes → Bool → ℕ → LongOption
long_opt name required_argument val = record {
  name = name;
  required_argument = required_argument;
  val = val;
}

abbrev pub long_opts : List LongOption
long_opts =
    long_opt (text "host") true b'h'
    ∷ long_opt (text "port") true b'p'
    ∷ long_opt (text "id") true b'i'
    ∷ long_opt (text "type") true b't'
    ∷ long_opt (text "metrics-port") true b'm'
    ∷ long_opt (text "no-seccomp") false b'n'
    ∷ long_opt (text "max-restarts") true b'r'
    ∷ long_opt (text "help") false b'H'
    ∷ []

abbrev pub short_opts : Bytes
short_opts = text "h:p:i:t:m:nr:H"

-- An option that getopt_long returns, and optarg.
abbrev pub Found : Type 0
Found = ℕ × Bytes

abbrev pub GetoptLong : Type 0
GetoptLong = List Bytes → Bytes → List LongOption → List Found

-- std::format("invalid --port '{}'", optarg)
abbrev pub invalid : Bytes → Bytes → Error
invalid flag arg = config_error (text "invalid " ++ (flag ++ (text " '" ++ (arg ++ text "'"))))

-- auto v = parse_num<uint64_t>(optarg); if (!v || *v > 65535) return ...
unfoldable pub port_number : Bytes → Bytes → Result ℕ
unfolding parse_num
port_number flag arg = elim (parse_num 64 arg) [
  | ok v ↦ if ltb 65535 v then err (invalid flag arg) else ok v
  | err e ↦ err (invalid flag arg)
  | out_of_fuel ↦ out_of_fuel
]

unfoldable pub restarts_number : Bytes → Result ℕ
unfolding parse_num
restarts_number arg = elim (parse_num 32 arg) [
  | ok v ↦ ok v
  | err e ↦ err (invalid (text "--max-restarts") arg)
  | out_of_fuel ↦ out_of_fuel
]

-- Whether the loop goes on after an option, with new options, or returns them.
pub data Turn : Type 0 where
  goes_on done : Options → Turn

-- the switch
unfoldable pub take_option : Found → Options → Result Turn
unfolding port_number restarts_number
take_option (opt, arg) o =
    if opt == b'h'
    then ok (goes_on (record o { host = arg }))
    else if opt == b'i'
    then ok (goes_on (record o { sandbox_id = arg }))
    else if opt == b't'
    then ok (goes_on (record o { target_type = arg }))
    else if opt == b'n'
    then ok (goes_on (record o { use_seccomp = false }))
    else if opt == b'H'
    then ok (done (record o { help = true }))
    else if opt == b'p'
    then (do v ← port_number (text "--port") arg; ok (goes_on (record o { port = v })))
    else if opt == b'm'
    then (do
      v ← port_number (text "--metrics-port") arg
      ok (goes_on (record o { metrics_port = v })))
    else if opt == b'r'
    then (do v ← restarts_number arg; ok (goes_on (record o { max_restarts = v })))
    else err (config_error (text "bad flag"))

-- the while loop
unfoldable pub parse_loop : List Found → Options → Result Options
unfolding take_option
parse_loop [] o = ok o
parse_loop (found ∷ rest) o = elim (take_option found o) [
  | ok (goes_on o') ↦ parse_loop rest o'
  | ok (done o') ↦ ok o'
  | err e ↦ err e
  | out_of_fuel ↦ out_of_fuel
]

unfoldable pub parse_args : GetoptLong → List Bytes → Result Options
unfolding parse_loop
parse_args getopt_long argv = parse_loop (getopt_long argv short_opts long_opts) defaults
