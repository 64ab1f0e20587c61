-- ===== src/Sandbox/Output.antt =====
-- What run reads from the pipe: the loop ends, and its chunks are the output in order.
use sandobox_cpp.Base.{
  ℕ, zero, suc, ◌+◌, ◌≤◌, ◌<◌, ◌≡◌, refl, sym, ap, ◌∙◌, ◌⊎◌, inl, inr, Bytes, List, [], ◌∷◌, ◌++◌,
  append_assoc, append-nil, length, length-append, Option, none, some, Option-cases, arith,
}
use sandobox_cpp.Result.{Result, ok}
use sandobox_cpp.Sandbox.Reading.{Pipe, emit, read_loop}

-- output_fn called with each chunk in turn
abbrev pub deliver : {W : Type 0} → Option (Bytes → W → W) → List Bytes → W → W
deliver output_fn [] w = w
deliver output_fn (c ∷ cs) w = deliver output_fn cs (emit output_fn c w)

abbrev pub join : List Bytes → Bytes
join [] = []
join (c ∷ cs) = c ++ join cs

-- None is empty, and each fits the buffer with its final 0.
abbrev pub AreChunks : List Bytes → Type 0
AreChunks [] = Unit
AreChunks (c ∷ cs) = (0 < length c) × (length c ≤ 4095) × AreChunks cs

-- Nothing is left to read, or the last call of read failed.
abbrev pub IsDrained : (k : Pipe) → k.State → Type 0
IsDrained k p' =
    (k.pending p' ≡ []) ⊎ ((q : k.State) × ((k.read q 4095).0 ≡ none) × ((k.read q 4095).1 ≡ p'))

-- What a run of the loop comes to: the chunks that it read, and where it left the pipe.
pub record Reads (k : Pipe) {W : Type 0} (output_fn : Option (Bytes → W → W)) (out : Bytes) (w : W)
    (p : k.State) (r : Result (Bytes × W × k.State)) : Type 0 where
  pub chunks : List Bytes
  pub last : k.State
  pub returned : r ≡ ok (out ++ join chunks, deliver output_fn chunks w, last)
  pub are_chunks : AreChunks chunks
  pub in_order : k.pending p ≡ join chunks ++ k.pending last
  pub drained : IsDrained k last

module _ (k : Pipe) {W : Type 0} (output_fn : Option (Bytes → W → W)) where
  Reads-none :
      (fuel : ℕ) (out : Bytes) (w : W) (p : k.State)
      → (k.read p 4095).0 ≡ none
      → Reads k output_fn out w p (read_loop k output_fn (suc fuel) out w p)
  unfolding read_loop
  Reads-none fuel out w p e = record {
    chunks = [];
    last = (k.read p 4095).1;
    returned = rw (e, append-nil, read_loop) refl;
    are_chunks = tt;
    in_order = sym (k.read_fails p 4095 e);
    drained = inr (p, e, refl);
  }

  Reads-end :
      (fuel : ℕ) (out : Bytes) (w : W) (p : k.State)
      → (k.read p 4095).0 ≡ some []
      → Reads k output_fn out w p (read_loop k output_fn (suc fuel) out w p)
  unfolding read_loop
  Reads-end fuel out w p e =
      let same = (k.read_takes p 4095 [] e).1 in
      record {
        chunks = [];
        last = (k.read p 4095).1;
        returned = rw (e, append-nil, read_loop) refl;
        are_chunks = tt;
        in_order = same;
        drained = inl (sym same ∙ k.read_ends p 4094 e);
      }

  Reads-chunk :
      (fuel : ℕ) (out : Bytes) (w : W) (p : k.State) (b : ℕ) (bs : Bytes)
      → (k.read p 4095).0 ≡ some (b ∷ bs)
      → Reads k output_fn
          (out ++ b ∷ bs)
          (emit output_fn (b ∷ bs) w)
          (k.read p 4095).1
          (read_loop k output_fn fuel (out ++ b ∷ bs) (emit output_fn (b ∷ bs) w) (k.read p 4095).1)
      → Reads k output_fn out w p (read_loop k output_fn (suc fuel) out w p)
  unfolding read_loop
  Reads-chunk fuel out w p b bs e h =
      let (fits, taken) = k.read_takes p 4095 (b ∷ bs) e in
      record {
        chunks = (b ∷ bs) ∷ h.chunks;
        last = h.last;
        returned =
            rw (e, read_loop)
              (h.returned
                ∙ ap (λ o. ok (o, deliver output_fn h.chunks (emit output_fn (b ∷ bs) w), h.last))
                    (append_assoc out (b ∷ bs) (join h.chunks)));
        are_chunks = (omega arith, fits, h.are_chunks);
        in_order =
            taken
            ∙ (ap (λ x. (b ∷ bs) ++ x) h.in_order
                ∙ sym (append_assoc (b ∷ bs) (join h.chunks) (k.pending h.last)));
        drained = h.drained;
      }

  pub read_loop-Reads :
      (fuel : ℕ) (out : Bytes) (w : W) (p : k.State)
      → length (k.pending p) < fuel
      → Reads k output_fn out w p (read_loop k output_fn fuel out w p)
  read_loop-Reads zero out w p h = absurd (omega arith)
  read_loop-Reads (suc fuel) out w p h = elim (Option-cases (k.read p 4095).0) [
    | inl e ↦ Reads-none fuel out w p e
    | inr ([], e) ↦ Reads-end fuel out w p e
    | inr (b ∷ bs, e) ↦ Reads-chunk fuel out w p b bs e (
        read_loop-Reads fuel (out ++ b ∷ bs) (emit output_fn (b ∷ bs) w) (k.read p 4095).1 (
          let shorter : length (k.pending p)
              ≡ suc (length bs) + length (k.pending (k.read p 4095).1) =
            ap length (k.read_takes p 4095 (b ∷ bs) e).1
            ∙ length-append (b ∷ bs) (k.pending (k.read p 4095).1) in
          omega arith))
  ]
