-- ===== src/Options/Tests.antt =====
-- Concrete command lines.
use sandobox_cpp.Base.{
  ◌≡◌, refl, Bytes, List, [], ◌∷◌, true, false, text, digits, digits_value, arith,
}
use sandobox_cpp.Result.{ok, err}
use sandobox_cpp.Options.Numbers.{parse_num, parse_num-eq-ok_iff, config_error, invalid_number}
use sandobox_cpp.Options.Given.{Describes, given, asks_help, default_texts}
use sandobox_cpp.Options.Loop.{parse_args_last_wins}
use sandobox_cpp.Options.{Options, defaults, long_opts, short_opts, GetoptLong, parse_args}

parse_num_of_leading_zero : parse_num 32 (text "007") ≡ ok 7
unfolding parse_num digits
parse_num_of_leading_zero = refl

parse_num_of_sign : parse_num 32 (text "-7") ≡ err (invalid_number (text "-7"))
unfolding parse_num digits
parse_num_of_sign = refl

parse_num_of_rest : parse_num 64 (text "80x") ≡ err (invalid_number (text "80x"))
unfolding parse_num digits
parse_num_of_rest = refl

parse_num_of_2_32 : parse_num 32 (text "4294967296") ≡ err (invalid_number (text "4294967296"))
unfolding parse_num digits
parse_num_of_2_32 = refl

parse_num-eq-ok_iff_example : parse_num 32 (text "42") ≡ ok 42
unfolding digits_value
parse_num-eq-ok_iff_example =
    (parse_num-eq-ok_iff 32 (text "42") 42).1 ((λ e. cc e), refl, omega arith)

-- What getopt_long finds in `-p 7000 -n --port=0081 --help -p junk`.
abbrev scripted : GetoptLong
scripted argv short long =
    (b'p', text "7000") ∷ (b'n', []) ∷ (b'p', text "0081") ∷ (b'H', []) ∷ (b'p', text "junk") ∷ []

abbrev command_line : List Bytes
command_line =
    text "-p"
    ∷ text "7000"
    ∷ text "-n"
    ∷ text "--port=0081"
    ∷ text "--help"
    ∷ text "-p"
    ∷ text "junk"
    ∷ []

abbrev parsed : Options
parsed = record defaults { port = 81; use_seccomp = false; help = true }

parse_args-scripted : parse_args scripted command_line ≡ ok parsed
unfolding parse_args digits
parse_args-scripted = refl

parse_args_last_wins_example :
    Describes (given (scripted command_line short_opts long_opts) default_texts) parsed
    × (true ≡ asks_help (scripted command_line short_opts long_opts))
parse_args_last_wins_example = parse_args_last_wins scripted command_line parsed parse_args-scripted

parse_args_bad_port :
    parse_args (λ argv s l. (b'p', text "65536") ∷ []) (text "-p" ∷ text "65536" ∷ [])
    ≡ err (config_error (text "invalid --port '65536'"))
unfolding parse_args digits
parse_args_bad_port = refl
