-- ===== src/Redis/Client/Total.antt =====
-- read_frame comes to an end on every stream.
use sandobox_cpp.Base.{
  ℕ, suc, ◌≡◌, ◌≢◌, ◌⊎◌, inl, inr, refl, ap, subst, Bytes, [], ◌∷◌, ◌++◌, length, ltb, load_le,
  AreBytes, arith, Bool-cases,
}
use sandobox_cpp.Result.{Result, Error, ok, err, out_of_fuel}
use sandobox_cpp.Redis.Sound.{parse_value-ne-out_of_fuel}
use sandobox_cpp.Redis.Socket.{Stream, read_exact}
use sandobox_cpp.Redis.Socket.Loops.{Reads, read_exact-Reads}
use sandobox_cpp.Redis.Client.{>>=-ok, >>=-err, max_frame, value, read_body, read_frame}

AreBytes-split : (a b : Bytes) → AreBytes (a ++ b) → AreBytes a × AreBytes b
AreBytes-split [] b h = (tt, h)
AreBytes-split (x ∷ a) b h = let (ha, hb) = AreBytes-split a b h.1 in ((h.0, ha), hb)

module _ (k : Stream) where
  open k use {State, pending}

  -- A read ends with an error, or with bytes that stood in the stream.
  abbrev Ends : Result Bytes × State → Type 0
  Ends r =
      ((e : Error) × (r.0 ≡ err e))
      ⊎ ((bs : Bytes) × (r.0 ≡ ok bs) × AreBytes bs × AreBytes (pending r.1))

  Ends-Reads :
      (s : State) (n : ℕ) (r : Result Bytes × State)
      → AreBytes (pending s)
      → Reads k s [] n r
      → Ends r
  Ends-Reads s n (ok buf, t) b (bs, same, count, cut, quiet) =
      let both = AreBytes-split bs (pending t) (subst AreBytes cut b) in
      inr (bs, ap ok same, both.0, both.1)
  Ends-Reads s n (err e, t) b w = inl (e, refl)
  Ends-Reads s n (out_of_fuel, t) b w = absurd w

  read_exact-Ends : (s : State) (n : ℕ) → AreBytes (pending s) → Ends (read_exact k (suc n) [] n s)
  read_exact-Ends s n b = Ends-Reads s n _ b (read_exact-Reads k (suc n) [] n s (omega arith))

  value-ne-out_of_fuel {ℓ} :
      {A : Type ℓ} (r : Result (A × Bytes)) → r ≢ out_of_fuel → value r ≢ out_of_fuel
  value-ne-out_of_fuel (ok x) h = cc
  value-ne-out_of_fuel (err e) h = cc
  value-ne-out_of_fuel out_of_fuel h = absurd (h refl)

  read_body_total : (n : ℕ) (s : State) → AreBytes (pending s) → (read_body k n s).0 ≢ out_of_fuel
  unfolding read_body
  read_body_total n s b = elim (Bool-cases (ltb max_frame n)) [
    | inl big ↦ rw big (λ e. cc)
    | inr small ↦ rw small (elim (read_exact-Ends s n b) [
      | inl (e, failed) ↦ rw (>>=-err (read_exact k (suc n) [] n) _ s failed) (λ e. cc)
      | inr (bs, got, ours, rest) ↦ rw (>>=-ok (read_exact k (suc n) [] n) _ s got) (
          value-ne-out_of_fuel _
            (parse_value-ne-out_of_fuel (suc (length bs)) bs ours (omega arith)))
    ])
  ]

  -- Whatever bytes are to come, and however the stream cuts them, read_frame returns a reply or an error
  -- of the program: the fuel of its loops and of its parser is enough.
  pub read_frame-ne-out_of_fuel :
      (s : State) → AreBytes (pending s) → (read_frame k s).0 ≢ out_of_fuel
  unfolding read_frame
  read_frame-ne-out_of_fuel s b = elim (read_exact-Ends s 4 b) [
    | inl (e, failed) ↦ rw (>>=-err (read_exact k 5 [] 4) _ s failed) (λ e. cc)
    | inr (bs, got, ours, rest) ↦
        rw (>>=-ok (read_exact k 5 [] 4) _ s got) (read_body_total (load_le bs) _ rest)
  ]
