-- ===== src/Redis/Commands.antt =====
-- The commands of redis_client.hpp: the argument vector that each method hands to send.
use sandobox_cpp.Base.{
  ℤ, ◌≡◌, Bytes, List, [], ◌∷◌, text, decimal_int, decimal_int-injective, Option, arith,
}
use sandobox_cpp.Result.{Result}
use sandobox_cpp.Redis.Response.{Response}
use sandobox_cpp.Redis.Socket.{Stream}
use sandobox_cpp.Redis.Frame.Layout.{frame, Fits}
use sandobox_cpp.Redis.Frame.Decode.{unpack-frame}
use sandobox_cpp.Redis.Client.{Client, send}

pub data Command : Type 0 where
  set lpush : Bytes → Bytes → Command
  get del rpop llen : Bytes → Command
  lrange : Bytes → ℤ → ℤ → Command
  job_next : Command
  job_status : Bytes → Command
  job_result : Bytes → ℤ → ℤ → Command
  job_log : Bytes → Bytes → Command
  sandbox_register : Bytes → Bytes → Bytes → Command
  sandbox_claim : Bytes → Bytes → Command
  sandbox_release : Bytes → Command

unfoldable pub arguments : Command → List Bytes
arguments (set key val) = text "set" ∷ key ∷ val ∷ []
arguments (get key) = text "get" ∷ key ∷ []
arguments (del key) = text "del" ∷ key ∷ []
arguments (lpush key val) = text "lpush" ∷ key ∷ val ∷ []
arguments (rpop key) = text "rpop" ∷ key ∷ []
arguments (lrange key start stop) = text "lrange" ∷ key ∷ decimal_int start ∷ decimal_int stop ∷ []
arguments (llen key) = text "llen" ∷ key ∷ []
arguments job_next = text "job next" ∷ []
arguments (job_status id) = text "job status" ∷ id ∷ []
arguments (job_result id exit_code duration_ms) =
    text "job result" ∷ id ∷ decimal_int exit_code ∷ decimal_int duration_ms ∷ []
arguments (job_log id line) = text "job log" ∷ id ∷ line ∷ []
arguments (sandbox_register id target addr) = text "sandbox register" ∷ id ∷ target ∷ addr ∷ []
arguments (sandbox_claim id job_id) = text "sandbox claim" ∷ id ∷ job_id ∷ []
arguments (sandbox_release id) = text "sandbox release" ∷ id ∷ []

-- A method of the client.
unfoldable pub perform : {k : Stream} → Command → Client k → Option (Result Response × Client k)
unfolding arguments
perform command c = send (arguments command) c

arguments-injective : (a b : Command) → arguments a ≡ arguments b → a ≡ b
unfolding arguments
arguments-injective (lrange k m n) (lrange k' m' n') e =
    ground (arith, decimal_int-injective m m', decimal_int-injective n n')
arguments-injective (job_result k m n) (job_result k' m' n') e =
    ground (arith, decimal_int-injective m m', decimal_int-injective n n')
arguments-injective a b e = ground arith

-- Two commands whose requests fit have the same request only if they are the same command with the
-- same arguments: no argument can pass for a part of another, nor for a command's name.
pub frame-arguments-injective :
    (a b : Command)
    → Fits (arguments a)
    → Fits (arguments b)
    → frame (arguments a) ≡ frame (arguments b)
    → a ≡ b
frame-arguments-injective a b fa fb e =
    let read_a = unpack-frame (arguments a) fa in
    let read_b = unpack-frame (arguments b) fb in arguments-injective a b (cc (read_a, read_b, e))
