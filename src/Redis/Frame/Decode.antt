-- ===== src/Redis/Frame/Decode.antt =====
-- A reader of requests, the inverse of the layout, and what a built request says of the buffer.
use sandobox_cpp.Base.{
  ℕ, zero, suc, ◌+◌, ◌%◌, ◌^◌, ◌<◌, ◌≤◌, ◌≡◌, ◌↔◌, ◌⊎◌, inl, inr, Option-cases, refl, Bytes, List,
  [], ◌∷◌, ◌++◌, length, length-append, take, drop, replicate, length-replicate, le_bytes, load_le,
  length-le_bytes, load_le-le_bytes, take-le_bytes, drop-le_bytes, Option, none, some, take-append,
  drop-append, arith, length-drop, length-take,
}
use sandobox_cpp.Redis.Frame.{◌>>=◌, add32, payload_from, write_at, put_le, put_args, build}
use sandobox_cpp.Redis.Frame.Layout.{body, frame, Fits, length-body, length-le-body, build-eq-frame}

write_at_bound :
    (buf : Bytes) (off : ℕ) (src : Bytes) {out : Bytes}
    → write_at buf off src ≡ some out
    → (off + length src ≤ length buf) × (length out ≡ length buf)
unfolding write_at
write_at_bound buf off src h = ground (
  arith,
  length-append {0} (take off buf) (src ++ drop (off + length src) buf),
  length-append {0} src (drop (off + length src) buf),
  length-take off buf,
  length-drop (off + length src) buf,
)

>>=-eq-some :
    {A B : Type 0} (m : Option A) (f : A → Option B) {b : B}
    → (m >>= f) ≡ some b
    → (a : A) × (m ≡ some a) × (f a ≡ some b)
>>=-eq-some none f h = cc
>>=-eq-some (some a) f h = (a, refl, h)

put_args_bound :
    (args : List Bytes) (msg : Bytes) (off : ℕ) {out : Bytes}
    → off ≤ length msg
    → put_args msg off args ≡ some out
    → off + length (body args) ≤ length msg
unfolding put_args put_le
put_args_bound [] msg off h e = unfold body in omega arith
put_args_bound (arg ∷ args) msg off h e =
    let (sized, e₁, rest) = >>=-eq-some (put_le msg off (length arg)) _ e in
    let (filled, e₂, last) = >>=-eq-some (write_at sized (off + 4) arg) _ rest in
    let b₁ = write_at_bound msg off (le_bytes 4 (length arg % 2 ^ 32)) e₁ in
    let b₂ = write_at_bound sized (off + 4) arg e₂ in
    let b₃ = put_args_bound args filled (off + 4 + length arg) (omega (arith, b₂)) last in
    omega (arith, length-body arg args, b₁, b₂, b₃)

take_args : ℕ → Bytes → Option (List Bytes)
take_args zero bs = some []
take_args (suc n) bs =
    let size = load_le (take 4 bs) in
    do args ← take_args n (drop size (drop 4 bs)); some (take size (drop 4 bs) ∷ args)

-- The arguments that a request holds.
unfoldable pub unpack : Bytes → Option (List Bytes)
unfolding take_args
unpack msg = take_args (load_le (take 4 (drop 4 msg))) (drop 8 msg)

take_args-body :
    (args : List Bytes)
    → length (body args) < 2 ^ 32
    → take_args (length args) (body args) ≡ some args
unfolding take_args body
take_args-body [] h = refl
take_args-body (arg ∷ args) h =
    let fits : length arg < 2 ^ 32 = omega (arith, length-body arg args) in
    simp (
      take-le_bytes,
      drop-le_bytes,
      load_le-le_bytes 4 (length arg) fits,
      take-append,
      drop-append,
      take_args-body args (omega (arith, length-body arg args)),
    )

drop_header : (a b : ℕ) (rest : Bytes) → drop 8 (le_bytes 4 a ++ (le_bytes 4 b ++ rest)) ≡ rest
unfolding le_bytes
drop_header a b rest = refl

pub unpack-frame : (args : List Bytes) → Fits args → unpack (frame args) ≡ some args
unfolding unpack frame
unpack-frame args h =
    let count : length args < 2 ^ 32 = omega (arith, length-le-body args) in
    simp (
      drop-le_bytes,
      take-le_bytes,
      drop_header,
      load_le-le_bytes 4 (length args) count,
      take_args-body args (omega arith),
    )

-- A request that was built without a write outside of the buffer is shorter than 2 ^ 32.
build-Fits : (args : List Bytes) {msg : Bytes} → build args ≡ some msg → Fits args
unfolding build put_le
build-Fits args e =
    let (first, e₁, rest) = >>=-eq-some (put_le _ 0 (payload_from 4 args)) _ e in
    let (second, e₂, last) = >>=-eq-some (put_le first 4 (length args)) _ rest in
    let size = add32 4 (payload_from 4 args) in
    let b₁ = write_at_bound (replicate size 0) 0 (le_bytes 4 (payload_from 4 args % 2 ^ 32)) e₁ in
    let b₂ = write_at_bound first 4 (le_bytes 4 (length args % 2 ^ 32)) e₂ in
    let b₃ =
      put_args_bound args second 8 (omega (arith, b₂, length-le_bytes 4 (length args % 2 ^ 32)))
        last in
    omega (arith, b₁, b₂, b₃, length-replicate {A = ℕ} size 0)

-- Building stays inside the buffer exactly when the request is shorter than 2 ^ 32 bytes; and from
-- whatever message was built a reader of the format gets the arguments back.
pub build-eq-some_iff :
    (args : List Bytes)
    → (((msg : Bytes) × (build args ≡ some msg)) ↔ Fits args)
      × (build args ≡ none ⊎ ((msg : Bytes) × (build args ≡ some msg) × (unpack msg ≡ some args)))
build-eq-some_iff args = (
  (λ (msg, e). build-Fits args e, λ h. (frame args, build-eq-frame args h)),
  elim (Option-cases (build args)) [
    | inl e ↦ inl e
    | inr (msg, e) ↦
        inr (
          frame args,
          build-eq-frame args (build-Fits args e),
          unpack-frame args (build-Fits args e),
        )
  ],
)
