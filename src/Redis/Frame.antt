-- ===== src/Redis/Frame.antt =====
-- The request that RedisClient::send builds (redis_client.cpp): a buffer whose size is counted in
-- 32 bits, then filled in place. `none` stands for a write outside of the buffer.
pub mod Layout
pub mod Decode
use sandobox_cpp.Base.{
  ℕ, zero, suc, ◌+◌, ◌%◌, ◌^◌, Bytes, List, [], ◌∷◌, ◌++◌, length, take, drop, replicate, leb,
  le_bytes, Option, none, some, if◌then◌else◌,
}

infixl 5 ◌>>=◌
abbrev pub ◌>>=◌ : {A B : Type 0} → Option A → (A → Option B) → Option B
none >>= f = none
some a >>= f = f a

-- A uint32_t sum.
abbrev pub add32 : ℕ → ℕ → ℕ
add32 a b = (a + b) % 2 ^ 32

-- payload += 4 + static_cast<uint32_t>(arg.size());
unfoldable pub payload_from : ℕ → List Bytes → ℕ
payload_from payload [] = payload
payload_from payload (arg ∷ args) =
    payload_from (add32 payload (add32 4 (length arg % 2 ^ 32))) args

-- memcpy(buf.data() + off, src.data(), src.size())
unfoldable pub write_at : Bytes → ℕ → Bytes → Option Bytes
write_at buf off src =
    if leb (off + length src) (length buf)
    then some (take off buf ++ (src ++ drop (off + length src) buf))
    else none

-- put_le(buf.data() + off, v)
unfoldable pub put_le : Bytes → ℕ → ℕ → Option Bytes
unfolding write_at
put_le buf off v = write_at buf off (le_bytes 4 (v % 2 ^ 32))

unfoldable pub put_args : Bytes → ℕ → List Bytes → Option Bytes
unfolding put_le
put_args msg off [] = some msg
put_args msg off (arg ∷ args) = do
  sized ← put_le msg off (length arg)
  filled ← write_at sized (off + 4) arg
  put_args filled (off + 4 + length arg) args

unfoldable pub build : List Bytes → Option Bytes
unfolding put_args payload_from
build args = do
  let payload = payload_from 4 args
  first ← put_le (replicate (add32 4 payload) 0) 0 payload
  second ← put_le first 4 (length args)
  put_args second 8 args
