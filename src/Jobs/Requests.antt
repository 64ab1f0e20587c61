-- ===== src/Jobs/Requests.antt =====
-- When the client of the program leaves a request's buffer.
use sandobox_cpp.Base.{
  ℕ, ℤ, Bytes, ◌≤◌, ◌^◌, length, length-append, length-le_bytes, length-take, take, text, arith,
  decimal_int, ◌≢◌, Bool-cases, inl, inr, none,
}
use sandobox_cpp.Redis.Socket.{Stream}
use sandobox_cpp.Redis.Frame.Layout.{Fits, body, build-eq-frame}
use sandobox_cpp.Redis.Client.{Client, send, is_connected}
use sandobox_cpp.Redis.Commands.{
  Command, arguments, perform, job_log, job_result, sandbox_claim, sandbox_release,
}
use sandobox_cpp.Jobs.Calls.{over_redis}
use sandobox_cpp.Jobs.Round.{AnsweredJob}

-- A command whose request is shorter than 2^32 bytes is answered.
perform-ne-none :
    {k : Stream} (command : Command) (c : Client k)
    → Fits (arguments command)
    → perform command c ≢ none
unfolding perform send
perform-ne-none command c h e = elim (Bool-cases (is_connected c)) [
  | inl on ↦ cc (e, on, build-eq-frame (arguments command) h)
  | inr off ↦ cc (e, off)
]

-- So the client of the program answers a job with ids of at most 2^30 bytes, if its numbers are as short.
pub perform-AnsweredJob :
    (k : Stream) (sandbox_id job_id : Bytes) (code duration : ℤ)
    → length sandbox_id ≤ 2 ^ 30
    → length job_id ≤ 2 ^ 30
    → length (decimal_int code) ≤ 2 ^ 30
    → length (decimal_int duration) ≤ 2 ^ 30
    → AnsweredJob (over_redis k) sandbox_id job_id code duration
unfolding arguments body
perform-AnsweredJob k sandbox_id job_id code duration hs hj hc hd = record {
  claims = λ s.
      perform-ne-none (sandbox_claim sandbox_id job_id) s
        (omega (arith, length-append {A = ℕ}, length-le_bytes));
  starts = λ s.
      perform-ne-none (job_log job_id (text "sandbox: starting execution")) s
        (omega (arith, length-append {A = ℕ}, length-le_bytes));
  logs = λ line s.
      perform-ne-none (job_log job_id (take 1000 line)) s
        (omega (arith, length-append {A = ℕ}, length-le_bytes, length-take {A = ℕ}));
  reports = λ s.
      perform-ne-none (job_result job_id code duration) s
        (omega (arith, length-append {A = ℕ}, length-le_bytes));
  releases = λ s.
      perform-ne-none (sandbox_release sandbox_id) s
        (omega (arith, length-append {A = ℕ}, length-le_bytes));
}
