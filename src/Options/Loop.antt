-- ===== src/Options/Loop.antt =====
-- The loop of parse_args keeps the texts that were given and the options' values together.
use sandobox_cpp.Base.{
  ℕ, ◌≡◌, refl, Bytes, List, [], ◌∷◌, Bool, true, false, ◌||◌, text, ◌==◌, ==_iff, digits_value,
  arith,
}
use sandobox_cpp.Result.{
  Result, ok, err, out_of_fuel, Ensures, returns, refuses, Ensures-ok, Ensures-bind, Ensures-if,
  Ensures-map,
}
use sandobox_cpp.Options.{
  Options, defaults, long_opts, short_opts, Found, GetoptLong, Turn, goes_on, done, take_option,
  parse_loop, parse_args,
}
use sandobox_cpp.Options.Given.{
  Given, default_texts, give, given, asks_help, Describes, port_number-Value, restarts_number-Value,
  gives_host, gives_sandbox_id, gives_target_type, gives_no_seccomp, gives_port, gives_metrics_port,
  gives_max_restarts, asks,
}

-- What a turn of the loop comes to, for an option with its argument.
abbrev Taken : Found → Given → Options → Turn → Type 0
Taken (opt, arg) g o (goes_on o') =
    ((opt == b'H') ≡ false) × Describes (give (opt, arg) g) o' × (o'.help ≡ o.help)
Taken (opt, arg) g o (done o') = ((opt == b'H') ≡ true) × Describes g o' × (o'.help ≡ true)

Taken-at :
    (opt : ℕ) (arg : Bytes) (g : Given) (o : Options) (c : ℕ) {r : Result Turn}
    → (opt == c) ≡ true
    → Ensures (Taken (c, arg) g o) r
    → Ensures (Taken (opt, arg) g o) r
Taken-at opt arg g o c e h = rw ((==_iff opt c).0 e) h

take_option-Taken :
    (opt : ℕ) (arg : Bytes) (g : Given) (o : Options)
    → Describes g o
    → Ensures (Taken (opt, arg) g o) (take_option (opt, arg) o)
unfolding take_option
take_option-Taken opt arg g o d =
    Ensures-if (opt == b'h')
      (λ e. Taken-at opt arg g o b'h' e (returns (refl, gives_host arg d, refl)))
      λ _.
        Ensures-if (opt == b'i')
          (λ e. Taken-at opt arg g o b'i' e (returns (refl, gives_sandbox_id arg d, refl)))
          λ _.
            Ensures-if (opt == b't')
              (λ e. Taken-at opt arg g o b't' e (returns (refl, gives_target_type arg d, refl)))
              λ _.
                Ensures-if (opt == b'n')
                  (λ e. Taken-at opt arg g o b'n' e (returns (refl, gives_no_seccomp arg d, refl)))
                  λ _.
                    Ensures-if (opt == b'H') (λ e. returns (e, asks arg d, refl))
                      λ _.
                        Ensures-if (opt == b'p')
                          (λ e. Taken-at opt arg g o b'p' e (
                            Ensures-bind (port_number-Value (text "--port") arg) λ v (value, fits).
                              returns (refl, gives_port arg d v value fits, refl)))
                          λ _.
                            Ensures-if (opt == b'm')
                              (λ e. Taken-at opt arg g o b'm' e (
                                Ensures-bind (port_number-Value (text "--metrics-port") arg)
                                  λ v (value, fits).
                                    returns (refl, gives_metrics_port arg d v value fits, refl)))
                              λ _.
                                Ensures-if (opt == b'r')
                                  (λ e. Taken-at opt arg g o b'r' e (
                                    Ensures-bind (restarts_number-Value arg) λ v (value, fits).
                                      returns (refl, gives_max_restarts arg d v value fits, refl)))
                                  λ _. refuses

-- The last texts describe the options, and help is asked for or not.
abbrev Parsed : List Found → Given → Bool → Options → Type 0
Parsed found g help o = Describes (given found g) o × (o.help ≡ (asks_help found || help))

parse_loop-Parsed :
    (found : List Found) (g : Given) (o : Options)
    → Describes g o
    → Ensures (Parsed found g o.help) (parse_loop found o)
unfolding parse_loop given asks_help
parse_loop-Parsed [] g o d = returns (d, refl)
parse_loop-Parsed ((opt, arg) ∷ rest) g o d =
    after (take_option-Taken opt arg g o d)
      (λ o' d'. parse_loop-Parsed rest (give (opt, arg) g) o' d')
  where
    after :
        {r : Result Turn}
        → Ensures (Taken (opt, arg) g o) r
        → ((o' : Options)
            → Describes (give (opt, arg) g) o'
            → Ensures (Parsed rest (give (opt, arg) g) o'.help) (parse_loop rest o'))
        → Ensures (Parsed ((opt, arg) ∷ rest) g o.help) (elim r [
          | ok (goes_on o') ↦ parse_loop rest o'
          | ok (done o') ↦ ok o'
          | err e ↦ err e
          | out_of_fuel ↦ out_of_fuel
        ])
    after (returns {a = goes_on o'} (other, d', same)) more =
        Ensures-map (λ x h. rw (other, ← same) h) (more o' d')
    after (returns {a = done o'} (asked, d', help)) more = returns (rw asked (d', help))
    after refuses more = refuses

default_texts-Describes : Describes default_texts defaults
unfolding digits_value
default_texts-Describes = record {
  host = refl;
  port = refl;
  port_fits = omega arith;
  sandbox_id = refl;
  target_type = refl;
  metrics_port = refl;
  metrics_port_fits = omega arith;
  use_seccomp = refl;
  max_restarts = refl;
  max_restarts_fit = omega arith;
}

-- Whatever getopt_long finds, the options that parse_args returns are those whose values are the last
-- texts given before any request for help, or the default where none was given: the numbers are the
-- decimal values of their texts, unreduced, the ports below 2^16 and the restarts below 2^32; and help
-- is set exactly if some option asked for it.
pub parse_args_last_wins :
    (getopt_long : GetoptLong) (argv : List Bytes) (o : Options)
    → parse_args getopt_long argv ≡ ok o
    → Describes (given (getopt_long argv short_opts long_opts) default_texts) o
      × (o.help ≡ asks_help (getopt_long argv short_opts long_opts))
unfolding parse_args
parse_args_last_wins getopt_long argv o e =
    let found = getopt_long argv short_opts long_opts in
    let (described, help) =
      Ensures-ok (parse_loop-Parsed found default_texts defaults default_texts-Describes) e in
    (described, ground arith)
