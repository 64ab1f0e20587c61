-- ===== src/Redis/Client/Descriptors.antt =====
-- The client's descriptor over connect, close, send and the move operations.
use sandobox_cpp.Base.{
  ℕ, ◌≡◌, Bytes, List, [], ◌∷◌, none, some, true, arith, ◌↔◌, ◌++◌, ◌&&◌, is_some,
}
use sandobox_cpp.Result.{Result, ok}
use sandobox_cpp.Redis.Response.{Response}
use sandobox_cpp.Redis.Socket.{Stream}
use sandobox_cpp.Redis.Client.{Client, Attempt, is_connected, close, connect, send}

-- RedisClient(RedisClient&& other): the new client and what is left of `other`.
unfoldable pub move_from : {k : Stream} → Client k → Client k × Client k
move_from other = (other, record other { fd = none; open_fds = [] })

-- operator=(RedisClient&& other), of two different clients.
unfoldable pub move_assign : {k : Stream} → Client k → Client k → Client k × Client k
unfolding close
move_assign c other =
    let closed = close c in
    (
      record closed {
        fd = other.fd;
        open_fds = other.open_fds ++ closed.open_fds;
        stream = other.stream;
      },
      record other { fd = none; open_fds = [] },
    )

module _ {k : Stream} where
  -- The client has its own descriptor open, and no other.
  abbrev pub Owns : Client k → Type 0
  Owns c = c.open_fds ≡ (elim c.fd [ none ↦ [] | some d ↦ d ∷ [] ])

  close-Owns : (c : Client k) → Owns c → Owns (close c) × ((close c).open_fds ≡ [])
  unfolding close
  close-Owns c h = ground arith

  connect-Owns :
      (a : Attempt k) (host : Bytes) (port : ℕ) (c : Client k)
      → Owns c
      → Owns (connect a host port c).1
  unfolding connect
  connect-Owns a host port c h = ground (arith, close-Owns c h)

  send-Owns :
      (args : List Bytes) (c : Client k) {r : Result Response} {c' : Client k}
      → send args c ≡ some (r, c')
      → Owns c
      → Owns c'
  unfolding send
  send-Owns args c e h = ground arith

  -- The calls of a client, one after the other.
  pub data Step (c : Client k) : Client k → Type 0 where
    connects : (a : Attempt k) (host : Bytes) (port : ℕ) → Step c (connect a host port c).1
    closes : Step c (close c)
    sends :
        (args : List Bytes) (r : Result Response) (c' : Client k)
        → send args c ≡ some (r, c')
        → Step c c'
    takes_over : (other : Client k) → Owns other → Step c (move_assign c other).0

  pub data Reach (c : Client k) : Client k → Type 0 where
    here : Reach c c
    next : {d e : Client k} → Reach c d → Step d e → Reach c e

  move_assign-Owns :
      (c other : Client k)
      → Owns c
      → Owns other
      → Owns (move_assign c other).0 × Owns (move_assign c other).1
  unfolding move_assign
  move_assign-Owns c other h o = ground (arith, close-Owns c h)

  Step-Owns : {c d : Client k} → Step c d → Owns c → Owns d
  Step-Owns {c} (connects a host port) h = connect-Owns a host port c h
  Step-Owns {c} closes h = (close-Owns c h).0
  Step-Owns {c} (sends args r c' e) h = send-Owns args c e h
  Step-Owns {c} (takes_over other o) h = (move_assign-Owns c other h o).0

  Reach-Owns : {c d : Client k} → Owns c → Reach c d → Owns d
  Reach-Owns h here = h
  Reach-Owns h (next r s) = Step-Owns s (Reach-Owns h r)

  -- After any history of connect, send, close and move assignment, failures included, from a client that
  -- owns just the descriptor that it names, the client still owns just that, and closing it, as the
  -- destructor does, leaves none open.
  pub no_descriptor_leaks :
      (c d : Client k) → Owns c → Reach c d → Owns d × ((close d).open_fds ≡ [])
  no_descriptor_leaks c d h r = let owns = Reach-Owns h r in (owns, (close-Owns d owns).1)

  -- connect succeeds exactly when there is a socket, the host is valid and the peer accepts; but the
  -- client counts as connected as soon as there is a socket and the host is valid, also when the peer
  -- refused.
  pub connect_outcome :
      (a : Attempt k) (host : Bytes) (port : ℕ) (c : Client k)
      → let r = connect a host port c in
        ((r.0 ≡ ok tt) ↔ ((is_some a.socket && a.host_valid && a.accepted) ≡ true))
        × (is_connected r.1 ≡ (is_some a.socket && a.host_valid))
  unfolding connect
  connect_outcome a host port c = ground arith
