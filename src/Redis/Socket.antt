-- ===== src/Redis/Socket.antt =====
-- The byte stream under the client, and the loops write_all and read_exact of redis_client.cpp.
-- The operating system is a parameter: send, recv and errno, with what their manual pages say.
pub mod Loops
use sandobox_cpp.Base.{
  ℕ, zero, suc, ◌+◌, ◌-◌, ◌≤◌, ◌<◌, ◌≡◌, Bytes, [], ◌∷◌, ◌++◌, length, take, drop, Option, none,
  some, text, ltb, if◌then◌else◌,
}
use sandobox_cpp.Result.{Result, ok, err, out_of_fuel, system_error}

-- A connected stream socket. `pending` is what the peer has sent and recv has not returned yet, and
-- `sent` is what send has accepted.
pub record Stream : Type 1 where
  pub State : Type 0
  -- none is a return value below 0
  pub recv : State → ℕ → Option Bytes × State
  pub send : State → Bytes → Option ℕ × State
  -- strerror(errno)
  pub reason : State → Bytes
  pub pending : State → Bytes
  pub sent : State → Bytes
  pub recv_takes :
      (s : State) (n : ℕ) (bs : Bytes)
      → (recv s n).0 ≡ some bs
      → (length bs ≤ n) × (pending s ≡ bs ++ pending (recv s n).1) × (sent (recv s n).1 ≡ sent s)
  pub send_gives :
      (s : State) (bs : Bytes) (n : ℕ)
      → (send s bs).0 ≡ some n
      → (n ≤ length bs)
        × (sent (send s bs).1 ≡ sent s ++ take n bs)
        × (pending (send s bs).1 ≡ pending s)
  pub recv_fails :
      (s : State) (n : ℕ)
      → (recv s n).0 ≡ none
      → (pending (recv s n).1 ≡ pending s) × (sent (recv s n).1 ≡ sent s)
  pub send_fails :
      (s : State) (bs : Bytes)
      → (send s bs).0 ≡ none
      → (pending (send s bs).1 ≡ pending s) × (sent (send s bs).1 ≡ sent s)

module _ (k : Stream) where
  open k use {State, recv, send, reason}

  -- write_all: the fuel bounds the calls of send, which each take a byte at least.
  -- A send that raises SIGPIPE is one that returns an error here.
  unfoldable pub write_all : ℕ → Bytes → State → Result (Unit {0}) × State
  write_all zero bs s = (out_of_fuel, s)
  write_all (suc fuel) [] s = (ok tt, s)
  write_all (suc fuel) (b ∷ bs) s =
      let (n, s') = send s (b ∷ bs) in
      elim n [
        | none ↦ (err (system_error (text "send") (reason s')), s')
        | some zero ↦ (err (system_error (text "send") (reason s')), s')
        | some (suc m) ↦ write_all fuel (drop m bs) s'
      ]

  -- read_exact: `got` is the part of the buffer that is filled, and `missing` is `len - got`.
  unfoldable pub read_exact : ℕ → Bytes → ℕ → State → Result Bytes × State
  read_exact zero got missing s = (out_of_fuel, s)
  read_exact (suc fuel) got zero s = (ok got, s)
  read_exact (suc fuel) got (suc m) s =
      let (chunk, s') = recv s (suc m) in
      elim chunk [
        | none ↦ (err (system_error (text "recv") (reason s')), s')
        | some [] ↦ (err (system_error (text "recv") (reason s')), s')
        | some (b ∷ bs) ↦ read_exact fuel (got ++ b ∷ bs) (m - length bs) s'
      ]
