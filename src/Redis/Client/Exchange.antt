-- ===== src/Redis/Client/Exchange.antt =====
-- A request and its reply over the stream.
use sandobox_cpp.Base.{
  ℕ, suc, ◌^◌, ◌≤◌, ◌<◌, ◌≡◌, refl, sym, ap, ◌∙◌, subst, Bytes, List, [], ◌∷◌, ◌++◌, length,
  length-append, take, drop, take-append, drop-append, append-nil, ltb, le→not_ltb, lt→ltb, load_le,
  le_bytes, load_le-le_bytes, some, true, false, arith,
}
use sandobox_cpp.Result.{Result, ok, err}
use sandobox_cpp.Redis.Response.{Response}
use sandobox_cpp.Redis.Parse.{parse_value}
use sandobox_cpp.Redis.Wire.{encode, IsWire, depth-le-length}
use sandobox_cpp.Redis.RoundTrip.{parse_value-encode}
use sandobox_cpp.Redis.Socket.{Stream, write_all, read_exact}
use sandobox_cpp.Redis.Socket.Loops.{
  Writes, Reads, write_all-Writes, read_exact-Reads, read_exact_delivers, write_all_delivers,
}
use sandobox_cpp.Redis.Frame.Layout.{frame, Fits, build-eq-frame}
use sandobox_cpp.Redis.Client.{
  Client, ◌>>=◌, >>=-ok, max_frame, oversized, read_body, read_frame, transact, send, is_connected,
}

module _ (k : Stream) where
  open k use {State, pending, sent}

  -- recv returns a byte at least while some are to come, and send takes one.
  pub record IsLive : Type 0 where
    pub delivers :
        (s : State) (n : ℕ)
        → 0 < length (pending s)
        → (b : ℕ) × (bs : Bytes) × ((k.recv s (suc n)).0 ≡ some (b ∷ bs))
    pub accepts :
        (s : State) (b : ℕ) (bs : Bytes) → (m : ℕ) × ((k.send s (b ∷ bs)).0 ≡ some (suc m))

  -- The run returns `a` and has taken `front` off the stream.
  abbrev Takes : {A : Type 0} → State → A → Bytes → Result A × State → Type 0
  Takes s a rest r = (r.0 ≡ ok a) × (pending r.1 ≡ rest) × (sent r.1 ≡ sent s)

  read_exact-Takes :
      IsLive
      → (front rest : Bytes) (fuel : ℕ) (s : State) → pending s ≡ front ++ rest
      → length front < fuel
      → Takes s front rest (read_exact k fuel [] (length front) s)
  read_exact-Takes live front rest fuel s e h =
      let r = read_exact k fuel [] (length front) s in
      let got : r.0 ≡ ok front =
        read_exact_delivers k live.delivers fuel [] (length front) s h
          (omega (arith, ap length e, length-append {0} front rest))
        ∙ ap ok (ap (take (length front)) e ∙ take-append front rest) in
      let (bs, same, count, cut, quiet) =
        subst (λ x. Reads k s [] (length front) (x, r.1)) got
          (read_exact-Reads k fuel [] (length front) s h) in
      (
        got,
        sym (drop-append bs (pending r.1))
            ∙ (ap (drop (length bs)) (sym cut ∙ e) ∙ rw (← same) (drop-append front rest)),
        quiet,
      )

  header-Takes :
      IsLive
      → (n : ℕ) (rest : Bytes) (s : State) → n < 2 ^ 32
      → pending s ≡ le_bytes 4 n ++ rest
      → (read_exact k 5 [] 4 s).0 ≡ ok (le_bytes 4 n)
        × (pending (read_exact k 5 [] 4 s).1 ≡ rest)
        × (sent (read_exact k 5 [] 4 s).1 ≡ sent s)
        × (load_le (le_bytes 4 n) ≡ n)
  unfolding le_bytes
  header-Takes live n rest s h e =
      let t = read_exact-Takes live (le_bytes 4 n) rest 5 s e (omega arith) in
      (t.0, t.1, t.2, load_le-le_bytes 4 n h)

  read_body-Takes :
      IsLive
      → (v : Response) (rest : Bytes) (s : State) → IsWire v
      → length (encode v) ≤ max_frame
      → pending s ≡ encode v ++ rest
      → Takes s v rest (read_body k (length (encode v)) s)
  unfolding read_body
  read_body-Takes live v rest s w h e =
      let bs : Bytes = encode v in
      let t = read_exact-Takes live bs rest (suc (length bs)) s e (omega arith) in
      let small : ltb max_frame (length bs) ≡ false = le→not_ltb max_frame (length bs) h in
      let parsed : parse_value (suc (length bs)) bs ≡ ok (v, []) =
        ap (parse_value (suc (length bs))) (sym (append-nil bs))
        ∙ parse_value-encode v (suc (length bs)) [] w (omega (arith, depth-le-length v)) in
      rw small (rw (t.0, ◌>>=◌, parsed) (refl, t.1, t.2))

  -- A reply that the peer has sent in a frame of a permitted size is returned, and the stream is left
  -- at what follows it.
  read_frame-Takes :
      IsLive
      → (v : Response) (rest : Bytes) (s : State) → IsWire v
      → length (encode v) ≤ max_frame
      → pending s ≡ le_bytes 4 (length (encode v)) ++ (encode v ++ rest)
      → Takes s v rest (read_frame k s)
  unfolding read_frame
  read_frame-Takes live v rest s w h e =
      let (got, left, quiet, size) =
        header-Takes live (length (encode v)) (encode v ++ rest) s (omega arith) e in
      let t = read_body-Takes live v rest _ w h left in
      rw (>>=-ok (read_exact k 5 [] 4) (λ header. read_body k (load_le header)) s got, size)
        (t.0, t.1, t.2 ∙ quiet)

  -- A request that fits is sent whole, its reply is returned, and the next reply is at the front of
  -- the stream.
  transact-Takes :
      IsLive
      → (msg : Bytes) (v : Response) (rest : Bytes) (s : State) → IsWire v
      → length (encode v) ≤ max_frame
      → pending s ≡ le_bytes 4 (length (encode v)) ++ (encode v ++ rest)
      → let r = transact k msg s in (r.0 ≡ ok v) × (pending r.1 ≡ rest) × (sent r.1 ≡ sent s ++ msg)
  unfolding transact
  transact-Takes live msg v rest s w h e =
      let m = write_all k (suc (length msg)) msg in
      let got : (m s).0 ≡ ok tt =
        write_all_delivers k live.accepts (suc (length msg)) msg s (omega arith) in
      let wrote =
        subst (λ x. Writes k s msg (x, (m s).1)) got
          (write_all-Writes k (suc (length msg)) msg s (omega arith)) in
      let t = read_frame-Takes live v rest (m s).1 w h (wrote.1 ∙ e) in
      rw (>>=-ok m (λ _. read_frame k) s got) (t.0, t.1, t.2 ∙ wrote.0)

  -- On a connected client and a live stream, a request that fits goes out as its layout, byte for
  -- byte, and the reply that the peer sent in a frame of a permitted size is the result; the stream
  -- is left right behind that frame, and the client stays connected.
  pub send_round_trip :
      IsLive
      → (args : List Bytes) (c : Client k) (v : Response) (rest : Bytes) → is_connected c ≡ true
      → Fits args
      → IsWire v
      → length (encode v) ≤ max_frame
      → pending c.stream ≡ le_bytes 4 (length (encode v)) ++ (encode v ++ rest)
      → (c' : Client k) × (send args c ≡ some (ok v, c'))
        × (pending c'.stream ≡ rest)
        × (sent c'.stream ≡ sent c.stream ++ frame args)
        × (is_connected c' ≡ true)
  unfolding send
  send_round_trip live args c v rest up fits w h e =
      let t = transact-Takes live (frame args) v rest c.stream w h e in
      let r = transact k (frame args) c.stream in
      (
        record c { stream = r.1 },
        rw (up, build-eq-frame args fits) (ap (λ x. some (x, record c { stream = r.1 })) t.0),
        t.1,
        t.2,
        up,
      )

  -- On a live stream, a frame that is announced as larger than MAX_FRAME is refused with a protocol error that names its
  -- size, and all of its body stays in the stream, in front of the next reply.
  pub read_frame-oversized :
      IsLive
      → (n : ℕ) (rest : Bytes) (s : State) → max_frame < n
      → n < 2 ^ 32
      → pending s ≡ le_bytes 4 n ++ rest
      → ((read_frame k s).0 ≡ err (oversized n)) × (pending (read_frame k s).1 ≡ rest)
  unfolding read_frame
  read_frame-oversized live n rest s big h e =
      let (got, left, quiet, size) = header-Takes live n rest s h e in
      let refused : ltb max_frame n ≡ true = lt→ltb max_frame n big in
      rw (>>=-ok (read_exact k 5 [] 4) (λ header. read_body k (load_le header)) s got, size)
        (unfold read_body in rw refused (refl, left))
