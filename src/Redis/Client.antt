-- ===== src/Redis/Client.antt =====
-- RedisClient of redis_client.cpp over a stream: its descriptor, send and read_frame.
pub mod Exchange
pub mod Total
pub mod Descriptors
use sandobox_cpp.Base.{
  close_fd, ℕ, suc, ◌+◌, ◌*◌, ◌^◌, Bytes, List, [], ◌∷◌, ◌++◌, length, ltb, load_le, text, decimal,
  Option, none, some, Bool, true, false, if◌then◌else◌, ◌≡◌, is_some, filter, not, ◌==◌,
}
use sandobox_cpp.Result.{Result, Error, Errc, ok, err, out_of_fuel, system_error}
use sandobox_cpp.Redis.Response.{Response}
use sandobox_cpp.Redis.Parse.{protocol_error, parse_value}
use sandobox_cpp.Redis.Socket.{Stream, write_all, read_exact}
use sandobox_cpp.Redis.Frame.{build}

-- MAX_FRAME
abbrev pub max_frame : ℕ
max_frame = 64 * 1024 * 1024

-- A call that may fail, over a state.
abbrev pub Exec : Type 0 → Type 0 → Type 0
Exec S A = S → Result A × S

infixl 5 ◌>>=◌ ◌>>◌
abbrev pub ◌>>=◌ : {S A B : Type 0} → Exec S A → (A → Exec S B) → Exec S B
◌>>=◌ m f s =
    let (r, s') = m s in
    elim r [ ok a ↦ f a s' | err e ↦ (err e, s') | out_of_fuel ↦ (out_of_fuel, s') ]

abbrev pub ◌>>◌ : {S B : Type 0} → Exec S (Unit {0}) → Exec S B → Exec S B
m >> n = m >>= λ _. n

-- A call that succeeds goes on with its value, in the state that it left.
pub >>=-ok :
    {S A B : Type 0} (m : Exec S A) (f : A → Exec S B) (s : S) {a : A}
    → (m s).0 ≡ ok a
    → (m >>= f) s ≡ f a (m s).1
>>=-ok m f s e = rw (e, ◌>>=◌)

pub >>=-err :
    {S A B : Type 0} (m : Exec S A) (f : A → Exec S B) (s : S) {x : Error}
    → (m s).0 ≡ err x
    → (m >>= f) s ≡ (err x, (m s).1)
>>=-err m f s e = rw (e, ◌>>=◌)

abbrev pub value {ℓ} : {A : Type ℓ} → Result (A × Bytes) → Result A
value (ok (a, rest)) = ok a
value (err e) = err e
value out_of_fuel = out_of_fuel

abbrev pub oversized : ℕ → Error
oversized len = protocol_error (text "frame of " ++ (decimal len ++ text " bytes exceeds limit"))

-- The frame's length is known: the check, the body, and its value.
unfoldable pub read_body : (k : Stream) → ℕ → Exec k.State Response
read_body k len = if ltb max_frame len then (λ s. (err (oversized len), s)) else do
  body ← read_exact k (suc len) [] len
  λ s. (value (parse_value (suc (length body)) body), s)

unfoldable pub read_frame : (k : Stream) → Exec k.State Response
unfolding read_body
read_frame k = do header ← read_exact k 5 [] 4; read_body k (load_le header)

-- send writes the request that build has made, and reads the reply.
unfoldable pub transact : (k : Stream) → Bytes → Exec k.State Response
unfolding read_frame
transact k msg = do write_all k (suc (length msg)) msg; read_frame k

-- fd_, where none is a value below 0; the descriptors that are open in the process; the stream.
pub record Client (k : Stream) : Type 0 where
  pub fd : Option ℕ
  pub open_fds : List ℕ
  pub stream : k.State

abbrev pub is_connected : {k : Stream} → Client k → Bool
is_connected c = is_some c.fd

abbrev pub not_connected : Error
not_connected = record { code = Errc.state; message = text "not connected" }

-- `none` is a write outside of the request's buffer.
unfoldable pub send : {k : Stream} → List Bytes → Client k → Option (Result Response × Client k)
unfolding transact
send {k} args c =
    if is_connected c
    then elim (build args) [
      | none ↦ none
      | some msg ↦ (let (r, s) = transact k msg c.stream in some (r, record c { stream = s }))
    ]
    else some (err not_connected, c)

-- ::close(d)
unfoldable pub close : {k : Stream} → Client k → Client k
close c = elim c.fd [ none ↦ c | some d ↦ record c { fd = none; open_fds = close_fd d c.open_fds } ]

-- What the operating system answers during connect: the descriptor of a new socket, whether
-- inet_pton takes the host, whether ::connect succeeds, the stream, and strerror(errno) after each.
pub record Attempt (k : Stream) : Type 0 where
  pub socket : Option ℕ
  pub host_valid : Bool
  pub accepted : Bool
  pub fresh : k.State
  pub socket_reason : Bytes
  pub host_reason : Bytes
  pub connect_reason : Bytes

-- connect once a socket is there
unfoldable pub dial : {k : Stream} → Attempt k → Bytes → ℕ → Client k → Result (Unit {0}) × Client k
unfolding close
dial a host port c =
    if a.host_valid
    then if a.accepted then (ok tt, c) else (
      err (system_error (text "connect " ++ (host ++ (text ":" ++ decimal port))) a.connect_reason),
      c,
    )
    else (err (system_error (text "invalid host '" ++ (host ++ text "'")) a.host_reason), close c)

unfoldable pub connect :
    {k : Stream} → Attempt k → Bytes → ℕ → Client k → Result (Unit {0}) × Client k
unfolding dial
connect a host port c =
    let closed = close c in
    elim a.socket [
      | none ↦ (err (system_error (text "socket") a.socket_reason), closed)
      | some d ↦
          dial a host port
            (record closed { fd = some d; open_fds = d ∷ closed.open_fds; stream = a.fresh })
    ]
