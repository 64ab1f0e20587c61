-- ===== src/Redis/Tests.antt =====
-- The theorems on the Redis client at concrete inputs.
use sandobox_cpp.Base.{
  ◌≤◌, ◌≡◌, ◌≢◌, refl, ◌↔◌, ◌⊎◌, negsuc, Bytes, List, [], ◌∷◌, ◌++◌, length, text, le_bytes,
  AreBytes, none, some, true, false, arith,
}
use sandobox_cpp.Result.{ok, err, out_of_fuel}
use sandobox_cpp.Redis.Response.{Response, str, int, arr, end, cons}
use sandobox_cpp.Redis.Parse.{parse_value}
use sandobox_cpp.Redis.Wire.{encode, IsWire}
use sandobox_cpp.Redis.Sound.{parse_value-eq-ok_iff}
use sandobox_cpp.Redis.Frame.{build}
use sandobox_cpp.Redis.Frame.Layout.{frame, Fits, body}
use sandobox_cpp.Redis.Frame.Decode.{unpack, build-eq-some_iff}
use sandobox_cpp.Redis.Client.{
  Client, Attempt, connect, close, send, read_frame, is_connected, max_frame, oversized,
}
use sandobox_cpp.Redis.Client.Exchange.{send_round_trip, read_frame-oversized}
use sandobox_cpp.Redis.Client.Total.{read_frame-ne-out_of_fuel}
use sandobox_cpp.Redis.Client.Descriptors.{
  Owns, connects, here, next, no_descriptor_leaks, connect_outcome,
}
use sandobox_cpp.Redis.Commands.{set, arguments, frame-arguments-injective}
use sandobox_cpp.Redis.Trickle.{trickle, trickle-IsLive}

-- The reply ["hi", -2], as a value and as bytes.
abbrev reply : Response
reply = arr (cons (str (text "hi")) (cons (int (negsuc 1)) end))

abbrev reply_bytes : Bytes
reply_bytes =
    5 ∷ 2 ∷ 0 ∷ 0 ∷ 0 ∷ 2 ∷ 2 ∷ 0 ∷ 0 ∷ 0 ∷ 104 ∷ 105 ∷ 3 ∷ 254 ∷ 255 ∷ 255 ∷ 255 ∷ 255 ∷ 255 ∷ 255
    ∷ 255 ∷ []

abbrev word_bytes : Bytes
word_bytes = 2 ∷ 1 ∷ 0 ∷ 0 ∷ 0 ∷ 104 ∷ 0 ∷ []

reply_bytes-encode : encode reply ≡ reply_bytes
unfolding encode le_bytes
reply_bytes-encode = refl

word_bytes-AreBytes : AreBytes word_bytes
word_bytes-AreBytes = (
  omega arith,
  (omega arith, (omega arith, (omega arith, (omega arith, (omega arith, (omega arith, tt)))))),
)

reply-IsWire : IsWire reply
unfolding IsWire
reply-IsWire = (omega arith, (omega arith, (omega arith, tt)))

parse_value-eq-ok_iff_example :
    (parse_value 8 word_bytes ≡ ok (str (104 ∷ []), 0 ∷ []))
    ↔ ((word_bytes ≡ encode (str (104 ∷ [])) ++ 0 ∷ []) × IsWire (str (104 ∷ [])))
parse_value-eq-ok_iff_example =
    parse_value-eq-ok_iff 8 word_bytes (str (104 ∷ [])) (0 ∷ []) word_bytes-AreBytes (omega arith)

abbrev get_args : List Bytes
get_args = text "get" ∷ text "k" ∷ []

get_args-Fits : Fits get_args
unfolding body le_bytes
get_args-Fits = omega arith

build-eq-some_iff_example :
    (((msg : Bytes) × (build get_args ≡ some msg)) ↔ Fits get_args)
    × (build get_args ≡ none
        ⊎ ((msg : Bytes) × (build get_args ≡ some msg) × (unpack msg ≡ some get_args)))
build-eq-some_iff_example = build-eq-some_iff get_args

get_set-Fits : Fits (arguments (set (text "k") (text "v")))
unfolding arguments body le_bytes
get_set-Fits = omega arith

frame-arguments-injective_example : set (text "k") (text "v") ≡ set (text "k") (text "v")
frame-arguments-injective_example =
    frame-arguments-injective (set (text "k") (text "v")) (set (text "k") (text "v")) get_set-Fits
      get_set-Fits refl

abbrev framed : Bytes
framed = le_bytes 4 (length (encode reply)) ++ (encode reply ++ 9 ∷ [])

abbrev connected : Client trickle
connected = record { fd = some 3; open_fds = 3 ∷ []; stream = (framed, []) }

small_reply : length (encode reply) ≤ max_frame
small_reply = rw reply_bytes-encode (omega arith)

send_round_trip_example :
    (c' : Client trickle) × (send get_args connected ≡ some (ok reply, c'))
    × (c'.stream.0 ≡ 9 ∷ [])
    × (c'.stream.1 ≡ [] ++ frame get_args)
    × (is_connected c' ≡ true)
send_round_trip_example =
    send_round_trip trickle trickle-IsLive get_args connected reply (9 ∷ []) refl get_args-Fits
      reply-IsWire small_reply refl

abbrev huge : Bytes × Bytes
huge = (le_bytes 4 100000000 ++ 1 ∷ [], [])

read_frame-oversized_example :
    ((read_frame trickle huge).0 ≡ err (oversized 100000000))
    × ((read_frame trickle huge).1.0 ≡ 1 ∷ [])
read_frame-oversized_example =
    read_frame-oversized trickle trickle-IsLive 100000000 (1 ∷ []) huge (omega arith) (omega arith)
      refl

read_frame-ne-out_of_fuel_example : (read_frame trickle (word_bytes, [])).0 ≢ out_of_fuel
read_frame-ne-out_of_fuel_example =
    read_frame-ne-out_of_fuel trickle (word_bytes, []) word_bytes-AreBytes

abbrev unused_client : Client trickle
unused_client = record { fd = none; open_fds = []; stream = ([], []) }

abbrev refused : Attempt trickle
refused = record {
  socket = some 3;
  host_valid = true;
  accepted = false;
  fresh = ([], []);
  socket_reason = [];
  host_reason = [];
  connect_reason = text "Connection refused";
}

abbrev after_refusal : Client trickle
after_refusal = (connect refused (text "127.0.0.1") 1234 unused_client).1

no_descriptor_leaks_example :
    Owns (connect refused (text "::1") 80 after_refusal).1
    × ((close (connect refused (text "::1") 80 after_refusal).1).open_fds ≡ [])
no_descriptor_leaks_example =
    no_descriptor_leaks unused_client (connect refused (text "::1") 80 after_refusal).1 refl (
      next (next here (connects refused (text "127.0.0.1") 1234))
        (connects refused (text "::1") 80))

connect_outcome_example :
    (((connect refused (text "127.0.0.1") 1234 unused_client).0 ≡ ok tt) ↔ (false ≡ true))
    × (is_connected (connect refused (text "127.0.0.1") 1234 unused_client).1 ≡ true)
connect_outcome_example = connect_outcome refused (text "127.0.0.1") 1234 unused_client
