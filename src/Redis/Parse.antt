-- ===== src/Redis/Parse.antt =====
-- parse_value of redis_client.cpp. The pair (buf, pos) is the list of the bytes of buf from pos on:
-- `buf.size() - pos` is its length, and to advance pos is to drop from it. The fuel is the depth of
-- the nesting, which costs the program a stack frame a level.
use sandobox_cpp.Base.{
  ℕ, zero, suc, ◌^◌, Bytes, text, decimal, [], ◌∷◌, ◌++◌, length, take, drop, ltb, ◌==◌, load_le,
  to_signed, if◌then◌else◌,
}
use sandobox_cpp.Result.{Result, Error, Errc, ok, err, out_of_fuel, ◌>>=◌, ◌>>◌}
use sandobox_cpp.Redis.Response.{Response, Responses, nil, error, str, int, dbl, arr, end, cons}

abbrev pub Parser {ℓ} : Type ℓ → Type ℓ
Parser A = Bytes → Result (A × Bytes)

abbrev pub protocol_error : Bytes → Error
protocol_error message = record { code = Errc.protocol; message = message }

-- the lambda `need`
abbrev pub need : ℕ → Bytes → Result (Unit {0})
need n rest =
    if ltb (length rest) n then err (protocol_error (text "truncated response")) else ok tt

-- load_le<T>(p), with T of k bytes
abbrev pub word : ℕ → Bytes → ℕ
word k rest = load_le (take k rest)

unfoldable pub parse_error : Parser Response
parse_error rest = do
  need 8 rest
  let after = drop 8 rest
  let msg_len = word 4 (drop 4 rest)
  need msg_len after
  ok (error (to_signed (2 ^ 31) (word 4 rest)) (take msg_len after), drop msg_len after)

unfoldable pub parse_str : Parser Response
parse_str rest = do
  need 4 rest
  let after = drop 4 rest
  let slen = word 4 rest
  need slen after
  ok (str (take slen after), drop slen after)

unfoldable pub parse_int : Parser Response
parse_int rest = do need 8 rest; ok (int (to_signed (2 ^ 63) (word 8 rest)), drop 8 rest)

unfoldable pub parse_dbl : Parser Response
parse_dbl rest = do need 8 rest; ok (dbl (word 8 rest), drop 8 rest)

-- the loop over the elements of an array
unfoldable pub parse_elems : Parser Response → ℕ → Parser Responses
parse_elems value zero rest = ok (end, rest)
parse_elems value (suc count) rest = do
  (x, after) ← value rest
  (xs, last) ← parse_elems value count after
  ok (cons x xs, last)

unfoldable pub parse_arr : Parser Response → Parser Response
unfolding parse_elems
parse_arr value rest = do
  need 4 rest
  (xs, after) ← parse_elems value (word 4 rest) (drop 4 rest)
  ok (arr xs, after)

unfoldable pub parse_tagged : Parser Response → ℕ → Parser Response
unfolding parse_error parse_str parse_int parse_dbl parse_arr
parse_tagged value tag rest =
    if tag == 0
    then ok (nil, rest)
    else if tag == 1
    then parse_error rest
    else if tag == 2
    then parse_str rest
    else if tag == 3
    then parse_int rest
    else if tag == 4
    then parse_dbl rest
    else if tag == 5
    then parse_arr value rest
    else err (protocol_error (text "unknown tag " ++ decimal tag))

unfoldable pub parse_value : ℕ → Parser Response
unfolding parse_tagged
parse_value zero rest = out_of_fuel
parse_value (suc depth) [] = err (protocol_error (text "empty response body"))
parse_value (suc depth) (tag ∷ rest) = parse_tagged (parse_value depth) tag rest
