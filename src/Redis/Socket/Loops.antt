-- ===== src/Redis/Socket/Loops.antt =====
-- What write_all and read_exact promise over any stream, however it cuts the bytes.
use sandobox_cpp.Base.{
  ℕ, zero, suc, ◌+◌, ◌-◌, ◌≤◌, ◌<◌, ◌≡◌, refl, sym, ap, ◌∙◌, Bytes, [], ◌∷◌, ◌++◌, length,
  length-append, take, drop, some, Option-cases, inl, inr, append_assoc, append-nil, length-drop,
  take-append-drop, take-append-take, take-append_more, arith,
}
use sandobox_cpp.Result.{Result, Errc, ok, err, out_of_fuel}
use sandobox_cpp.Redis.Socket.{Stream, write_all, read_exact}

module _ (k : Stream) where
  open k use {State, recv, send, pending, sent, recv_takes, send_gives, recv_fails, send_fails}

  -- What a write leaves behind, by its result.
  abbrev pub Writes : State → Bytes → Result (Unit {0}) × State → Type 0
  Writes s bs (ok _, s') = (sent s' ≡ sent s ++ bs) × (pending s' ≡ pending s)
  Writes s bs (err e, s') =
      (n : ℕ) × (n < length bs)
      × (sent s' ≡ sent s ++ take n bs)
      × (pending s' ≡ pending s)
      × (e.code ≡ Errc.system)
  Writes s bs (out_of_fuel, s') = ⊥

  Writes-after :
      (s s' : State) (n : ℕ) (bs : Bytes) (r : Result (Unit {0}) × State)
      → n ≤ length bs
      → sent s' ≡ sent s ++ take n bs
      → pending s' ≡ pending s
      → Writes s' (drop n bs) r
      → Writes s bs r
  Writes-after s s' n bs (ok _, t) h e p w =
      (w.0 ∙ rw (e, append_assoc, take-append-drop n bs), w.1 ∙ p)
  Writes-after s s' n bs (err x, t) h e p w =
      let (m, fewer, same, quiet, code) = w in
      (
        n + m,
        omega (arith, length-drop n bs),
        same ∙ rw (e, append_assoc, take-append-take n m (n + m) bs refl),
        quiet ∙ p,
        code,
      )
  Writes-after s s' n bs (out_of_fuel, t) h e p w = w

  -- With one more unit of fuel than there are bytes, write_all comes to an end: a success has sent all
  -- of the bytes, a failure is a system error and has sent a proper prefix of them; nothing is received.
  pub write_all-Writes :
      (fuel : ℕ) (bs : Bytes) (s : State) → length bs < fuel → Writes s bs (write_all k fuel bs s)
  unfolding write_all
  write_all-Writes zero bs s h = absurd (omega arith)
  write_all-Writes (suc fuel) [] s h = (sym (append-nil (sent s)), refl)
  write_all-Writes (suc fuel) (b ∷ bs) s h = elim (Option-cases (send s (b ∷ bs)).0) [
    | inl e ↦
        rw (e, write_all)
          (
            0,
            omega arith,
            (send_fails s (b ∷ bs) e).1 ∙ sym (append-nil (sent s)),
            (send_fails s (b ∷ bs) e).0,
            refl,
          )
    | inr (zero, e) ↦
        rw (e, write_all)
          (let (_, same, quiet) = send_gives s (b ∷ bs) 0 e in (0, omega arith, same, quiet, refl))
    | inr (suc m, e) ↦
        rw (e, write_all)
          (let (fits, same, quiet) = send_gives s (b ∷ bs) (suc m) e in
            Writes-after s _ (suc m) (b ∷ bs) _ fits same quiet
              (write_all-Writes fuel (drop m bs) _ (omega (arith, length-drop m bs))))
  ]

  -- What a read leaves behind, by its result.
  abbrev pub Reads : State → Bytes → ℕ → Result Bytes × State → Type 0
  Reads s got missing (ok buf, s') =
      (bs : Bytes) × (buf ≡ got ++ bs)
      × (length bs ≡ missing)
      × (pending s ≡ bs ++ pending s')
      × (sent s' ≡ sent s)
  Reads s got missing (err e, s') =
      (bs : Bytes) × (length bs < missing)
      × (pending s ≡ bs ++ pending s')
      × (sent s' ≡ sent s)
      × (e.code ≡ Errc.system)
  Reads s got missing (out_of_fuel, s') = ⊥

  Reads-after :
      (s s' : State) (got bs : Bytes) (missing left : ℕ) (r : Result Bytes × State)
      → length bs + left ≡ missing
      → pending s ≡ bs ++ pending s'
      → sent s' ≡ sent s
      → Reads s' (got ++ bs) left r
      → Reads s got missing r
  Reads-after s s' got bs missing left (ok buf, t) h e p (more, all, count, rest, quiet) = (
    bs ++ more,
    all ∙ append_assoc got bs more,
    omega (arith, length-append {0} bs more),
    e ∙ rw (rest, append_assoc),
    quiet ∙ p,
  )
  Reads-after s s' got bs missing left (err x, t) h e p (more, count, rest, quiet, code) = (
    bs ++ more,
    omega (arith, length-append {0} bs more),
    e ∙ rw (rest, append_assoc),
    quiet ∙ p,
    code,
  )
  Reads-after s s' got bs missing left (out_of_fuel, t) h e p w = w

  -- With one more unit of fuel than bytes are missing, read_exact comes to an end: a success has taken
  -- exactly the missing bytes off the stream, in their order, and put them behind those in the buffer;
  -- a failure is a system error and has taken fewer; nothing is sent.
  pub read_exact-Reads :
      (fuel : ℕ) (got : Bytes) (missing : ℕ) (s : State)
      → missing < fuel
      → Reads s got missing (read_exact k fuel got missing s)
  unfolding read_exact
  read_exact-Reads zero got missing s h = absurd (omega arith)
  read_exact-Reads (suc fuel) got zero s h = ([], sym (append-nil got), refl, refl, refl)
  read_exact-Reads (suc fuel) got (suc m) s h = elim (Option-cases (recv s (suc m)).0) [
    | inl e ↦
        rw (e, read_exact)
          ([], omega arith, sym (recv_fails s (suc m) e).0, (recv_fails s (suc m) e).1, refl)
    | inr ([], e) ↦
        rw (e, read_exact)
          (let (_, same, quiet) = recv_takes s (suc m) [] e in ([], omega arith, same, quiet, refl))
    | inr (b ∷ bs, e) ↦
        rw (e, read_exact)
          (let (fits, same, quiet) = recv_takes s (suc m) (b ∷ bs) e in
            Reads-after s _ got (b ∷ bs) (suc m) (m - length bs) _ (omega arith) same quiet
              (read_exact-Reads fuel (got ++ b ∷ bs) (m - length bs) _ (omega arith)))
  ]

  -- Where recv returns a byte at least as long as some are to come, and as many bytes are to come as are
  -- missing, read_exact with fuel for them succeeds, and they are the first bytes to come.
  pub read_exact_delivers :
      ((s : State) (n : ℕ)
        → 0 < length (pending s)
        → (b : ℕ) × (bs : Bytes) × ((recv s (suc n)).0 ≡ some (b ∷ bs)))
      → (fuel : ℕ) (got : Bytes) (missing : ℕ) (s : State) → missing < fuel
      → missing ≤ length (pending s)
      → (read_exact k fuel got missing s).0 ≡ ok (got ++ take missing (pending s))
  unfolding read_exact
  read_exact_delivers live zero got missing s h l = absurd (omega arith)
  read_exact_delivers live (suc fuel) got zero s h l = ap ok (sym (append-nil got))
  read_exact_delivers live (suc fuel) got (suc m) s h l =
      let (b, bs, e) = live s m (omega arith) in
      let (fits, same, quiet) = recv_takes s (suc m) (b ∷ bs) e in
      let left : ℕ = m - length bs in
      let rest : Bytes = pending (recv s (suc m)).1 in
      let more : length (pending s) ≡ suc (length bs) + length rest =
        ap length same ∙ length-append {0} (b ∷ bs) rest in
      let cut : take (suc m) (pending s) ≡ b ∷ bs ++ take left rest =
        ap (take (suc m)) same ∙ take-append_more (b ∷ bs) rest left (suc m) (omega arith) in
      rw (e, read_exact, cut)
        (read_exact_delivers live fuel (got ++ b ∷ bs) left _ (omega arith) (omega arith)
          ∙ ap ok (append_assoc got (b ∷ bs) (take left rest)))

  -- Where send takes bytes whenever it is called, write_all succeeds.
  pub write_all_delivers :
      ((s : State) (b : ℕ) (bs : Bytes) → (m : ℕ) × ((send s (b ∷ bs)).0 ≡ some (suc m)))
      → (fuel : ℕ) (bs : Bytes) (s : State) → length bs < fuel
      → (write_all k fuel bs s).0 ≡ ok tt
  unfolding write_all
  write_all_delivers live zero bs s h = absurd (omega arith)
  write_all_delivers live (suc fuel) [] s h = refl
  write_all_delivers live (suc fuel) (b ∷ bs) s h =
      let (m, e) = live s b bs in
      rw (e, write_all)
        (write_all_delivers live fuel (drop m bs) _ (omega (arith, length-drop m bs)))
