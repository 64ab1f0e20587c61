-- ===== src/Sandbox/Reading.antt =====
-- The reading end of the pipe under run, and the loop of run that reads it.
use sandobox_cpp.Base.{ℕ, zero, suc, ◌≤◌, ◌≡◌, Bytes, [], ◌∷◌, ◌++◌, length, Option, none, some}
use sandobox_cpp.Result.{Result, ok, out_of_fuel}

-- read(2) on a pipe whose writers come to an end: `pending` is what they will have written by the time they
-- close it and read has not returned yet. A writer that never closes it is not in the model.
pub record Pipe : Type 1 where
  pub State : Type 0
  -- none is a return value below 0
  pub read : State → ℕ → Option Bytes × State
  pub pending : State → Bytes
  pub read_takes :
      (s : State) (n : ℕ) (bs : Bytes)
      → (read s n).0 ≡ some bs
      → (length bs ≤ n) × (pending s ≡ bs ++ pending (read s n).1)
  pub read_ends : (s : State) (n : ℕ) → (read s (suc n)).0 ≡ some [] → pending s ≡ []
  pub read_fails : (s : State) (n : ℕ) → (read s n).0 ≡ none → pending (read s n).1 ≡ pending s

-- if (output_fn) output_fn(chunk);
abbrev pub emit : {W : Type 0} → Option (Bytes → W → W) → Bytes → W → W
emit none chunk w = w
emit (some output_fn) chunk w = output_fn chunk w

-- while ((n = read(fd, buf, sizeof(buf) - 1)) > 0): the fuel bounds the calls of read, which each take a
-- byte at least.
unfoldable pub read_loop :
    (k : Pipe) {W : Type 0}
    → Option (Bytes → W → W)
    → ℕ
    → Bytes
    → W
    → k.State
    → Result (Bytes × W × k.State)
read_loop k output_fn zero out w p = out_of_fuel
read_loop k output_fn (suc fuel) out w p =
    let (chunk, p') = k.read p 4095 in
    elim chunk [
      | none ↦ ok (out, w, p')
      | some [] ↦ ok (out, w, p')
      | some (b ∷ bs) ↦ read_loop k output_fn fuel (out ++ b ∷ bs) (emit output_fn (b ∷ bs) w) p'
    ]
