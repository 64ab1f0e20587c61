-- ===== src/Redis/Trickle.antt =====
-- A stream for the tests: it moves one byte a call.
use sandobox_cpp.Base.{
  ℕ, zero, suc, ◌≤◌, ◌<◌, ◌≡◌, refl, Bytes, [], ◌∷◌, ◌++◌, length, append-nil, take, Option, none,
  some, arith,
}
use sandobox_cpp.Redis.Socket.{Stream}
use sandobox_cpp.Redis.Client.Exchange.{IsLive}

-- A stream that moves one byte a call: what is to come, and what has been sent.
abbrev trickle_recv : Bytes × Bytes → ℕ → Option Bytes × (Bytes × Bytes)
trickle_recv (p, q) zero = (some [], (p, q))
trickle_recv ([], q) (suc n) = (some [], ([], q))
trickle_recv (b ∷ p, q) (suc n) = (some (b ∷ []), (p, q))

abbrev trickle_send : Bytes × Bytes → Bytes → Option ℕ × (Bytes × Bytes)
trickle_send (p, q) [] = (some 0, (p, q))
trickle_send (p, q) (b ∷ bs) = (some 1, (p, q ++ b ∷ []))

pub trickle_recv_takes :
    (s : Bytes × Bytes) (n : ℕ) (bs : Bytes)
    → (trickle_recv s n).0 ≡ some bs
    → (length bs ≤ n) × (s.0 ≡ bs ++ (trickle_recv s n).1.0) × ((trickle_recv s n).1.1 ≡ s.1)
trickle_recv_takes (p, q) zero bs e = ground arith
trickle_recv_takes ([], q) (suc n) bs e = ground arith
trickle_recv_takes (b ∷ p, q) (suc n) bs e = ground arith

pub trickle_send_gives :
    (s : Bytes × Bytes) (bs : Bytes) (n : ℕ)
    → (trickle_send s bs).0 ≡ some n
    → (n ≤ length bs)
      × ((trickle_send s bs).1.1 ≡ s.1 ++ take n bs)
      × ((trickle_send s bs).1.0 ≡ s.0)
trickle_send_gives (p, q) [] n e = ground (arith, append-nil q)
trickle_send_gives (p, q) (b ∷ bs) n e = ground arith

pub trickle_recv_fails :
    (s : Bytes × Bytes) (n : ℕ)
    → (trickle_recv s n).0 ≡ none
    → ((trickle_recv s n).1.0 ≡ s.0) × ((trickle_recv s n).1.1 ≡ s.1)
trickle_recv_fails (p, q) zero e = ground arith
trickle_recv_fails ([], q) (suc n) e = ground arith
trickle_recv_fails (b ∷ p, q) (suc n) e = ground arith

pub trickle_send_fails :
    (s : Bytes × Bytes) (bs : Bytes)
    → (trickle_send s bs).0 ≡ none
    → ((trickle_send s bs).1.0 ≡ s.0) × ((trickle_send s bs).1.1 ≡ s.1)
trickle_send_fails (p, q) [] e = ground arith
trickle_send_fails (p, q) (b ∷ bs) e = ground arith

abbrev pub trickle : Stream
trickle = record {
  State = Bytes × Bytes;
  recv = trickle_recv;
  send = trickle_send;
  reason = λ s. [];
  pending = λ s. s.0;
  sent = λ s. s.1;
  recv_takes = trickle_recv_takes;
  send_gives = trickle_send_gives;
  recv_fails = trickle_recv_fails;
  send_fails = trickle_send_fails;
}

pub trickle_delivers :
    (s : Bytes × Bytes) (n : ℕ)
    → 0 < length s.0
    → (b : ℕ) × (bs : Bytes) × ((trickle_recv s (suc n)).0 ≡ some (b ∷ bs))
trickle_delivers ([], q) n h = absurd (omega arith)
trickle_delivers (b ∷ p, q) n h = (b, [], refl)

trickle_accepts :
    (s : Bytes × Bytes) (b : ℕ) (bs : Bytes)
    → (m : ℕ) × ((trickle_send s (b ∷ bs)).0 ≡ some (suc m))
trickle_accepts (p, q) b bs = (0, refl)

pub trickle-IsLive : IsLive trickle
trickle-IsLive = record { delivers = trickle_delivers; accepts = trickle_accepts }
