-- ===== src/Redis/Frame/Layout.antt =====
-- The bytes of a request, written down apart from the code that fills the buffer.
use sandobox_cpp.Base.{
  ℕ, ◌+◌, ◌%◌, ◌^◌, ◌<◌, ◌≤◌, ◌≡◌, refl, ap, ◌∙◌, sym, Bytes, List, [], ◌∷◌, ◌++◌, length,
  length-append, take, drop, replicate, length-replicate, leb, le_bytes, length-le_bytes, true,
  some, append_assoc, take-append, drop-append, drop-drop, arith, length-drop, le→leb,
}
use sandobox_cpp.Redis.Frame.{◌>>=◌, add32, payload_from, write_at, put_le, put_args, build}

-- Each argument behind its length.
unfoldable pub body : List Bytes → Bytes
body [] = []
body (arg ∷ args) = le_bytes 4 (length arg) ++ (arg ++ body args)

-- The payload's size, the count of the arguments, the arguments.
unfoldable pub frame : List Bytes → Bytes
frame args = le_bytes 4 (4 + length (body args)) ++ (le_bytes 4 (length args) ++ body args)

-- The whole request is shorter than 2 ^ 32.
abbrev pub Fits : List Bytes → Type 0
Fits args = 8 + length (body args) < 2 ^ 32

pub length-body :
    (arg : Bytes) (args : List Bytes)
    → length (body (arg ∷ args)) ≡ 4 + (length arg + length (body args))
unfolding body
length-body arg args = omega (
  arith,
  length-append {0} (le_bytes 4 (length arg)) (arg ++ body args),
  length-le_bytes 4 (length arg),
  length-append {0} arg (body args),
)

payload_from-length :
    (args : List Bytes) (payload : ℕ)
    → payload + length (body args) < 2 ^ 32
    → payload_from payload args ≡ payload + length (body args)
unfolding payload_from
payload_from-length [] payload h = unfold body in omega arith
payload_from-length (arg ∷ args) payload h =
    let next : add32 payload (add32 4 (length arg % 2 ^ 32)) ≡ payload + 4 + length arg =
      omega (arith, length-body arg args) in
    rw next (
      omega (
        arith,
        length-body arg args,
        payload_from-length args (payload + 4 + length arg) (omega (arith, length-body arg args)),
      ))

-- Behind what is written already, a write that fits replaces as much of what follows.
write_at-append :
    (before after src : Bytes) (off : ℕ)
    → off ≡ length before
    → length src ≤ length after
    → write_at (before ++ after) off src ≡ some ((before ++ src) ++ drop (length src) after)
unfolding write_at
write_at-append before after src off e h =
    let fits : leb (off + length src) (length (before ++ after)) ≡ true =
      le→leb _ _ (omega (arith, length-append {0} before after)) in
    let kept : take off (before ++ after) ≡ before = rw e (take-append before after) in
    let rest : drop off (before ++ after) ≡ after = rw e (drop-append before after) in
    rw (
      fits,
      kept,
      ← drop-drop off (length src) (off + length src) (before ++ after) refl,
      rest,
      append_assoc,
    )

put_le-append :
    (before after : Bytes) (off v : ℕ)
    → off ≡ length before
    → 4 ≤ length after
    → v < 2 ^ 32
    → put_le (before ++ after) off v ≡ some ((before ++ le_bytes 4 v) ++ drop 4 after)
unfolding put_le
put_le-append before after off v e h l =
    let low : v % 2 ^ 32 ≡ v = omega arith in
    rw low (
      write_at-append before after (le_bytes 4 v) off e (omega (arith, length-le_bytes 4 v))
      ∙ rw length-le_bytes)

put_args-body :
    (args : List Bytes) (before after : Bytes) (off : ℕ)
    → off ≡ length before
    → length after ≡ length (body args)
    → length after < 2 ^ 32
    → put_args (before ++ after) off args ≡ some (before ++ body args)
unfolding put_args
put_args-body [] before [] off e h l = unfold body in refl
put_args-body [] before (x ∷ after) off e h l = absurd (unfold body in omega arith)
put_args-body (arg ∷ args) before after off e h l =
    let n = length arg in
    let size = length-body arg args in
    let sized = before ++ le_bytes 4 n in
    let size_e : off + 4 ≡ length sized =
      omega (arith, length-append {0} before (le_bytes 4 n), length-le_bytes 4 n) in
    let filled_e : off + 4 + n ≡ length (sized ++ arg) =
      omega (arith, length-append {0} sized arg) in
    rw (put_le-append before after off n e (omega arith) (omega arith)) (
      rw
        (write_at-append sized (drop 4 after) arg (off + 4) size_e
          (omega (arith, length-drop 4 after)))
        (rw
          (put_args-body args (sized ++ arg) (drop n (drop 4 after)) (off + 4 + n) filled_e
            (omega (arith, length-drop n (drop 4 after), length-drop 4 after))
            (omega (arith, length-drop n (drop 4 after), length-drop 4 after)))
          (unfold body in simp append_assoc)))

pub length-le-body : (args : List Bytes) → length args ≤ length (body args)
length-le-body [] = omega arith
length-le-body (arg ∷ args) = omega (arith, length-body arg args, length-le-body args)

-- The two words in front, in a buffer of the right size.
put_header :
    (buf : Bytes) (args : List Bytes)
    → length buf ≡ 8 + length (body args)
    → Fits args
    → (do
      first ← put_le buf 0 (4 + length (body args))
      second ← put_le first 4 (length args)
      put_args second 8 args)
      ≡ some (frame args)
unfolding frame
put_header buf args e h =
    let n : ℕ = 4 + length (body args) in
    let head : Bytes = le_bytes 4 n in
    let count : Bytes = le_bytes 4 (length args) in
    let rest : ℕ = length (drop 4 (drop 4 buf)) in
    let both : rest ≡ length (body args) =
      omega (arith, length-drop 4 (drop 4 buf), length-drop 4 buf) in
    let at : 8 ≡ length (head ++ count) =
      omega (
        arith,
        length-append {0} head count,
        length-le_bytes 4 n,
        length-le_bytes 4 (length args),
      ) in
    rw (put_le-append [] buf 0 n refl (omega arith) (omega arith)) (
      rw
        (put_le-append head (drop 4 buf) 4 (length args) (sym (length-le_bytes 4 n))
          (omega (arith, length-drop 4 buf)) (omega (arith, length-le-body args)))
        (rw (put_args-body args (head ++ count) (drop 4 (drop 4 buf)) 8 at both (omega arith))
          (ap some (append_assoc head count (body args)))))

-- A request that fits is built with no write outside of its buffer, and is the layout above.
pub build-eq-frame : (args : List Bytes) → Fits args → build args ≡ some (frame args)
unfolding build
build-eq-frame args h =
    let total : payload_from 4 args ≡ 4 + length (body args) =
      payload_from-length args 4 (omega arith) in
    let room : add32 4 (4 + length (body args)) ≡ 8 + length (body args) = omega arith in
    rw (total, room)
      (put_header (replicate (8 + length (body args)) 0) args
        (length-replicate (8 + length (body args)) 0) h)
