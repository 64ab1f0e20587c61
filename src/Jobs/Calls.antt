-- ===== src/Jobs/Calls.antt =====
-- What the job loop uses of its client: a state, and a call for each command.
use sandobox_cpp.Base.{List, [], ◌∷◌, ◌++◌, Option, none, some}
use sandobox_cpp.Result.{Result}
use sandobox_cpp.Redis.Response.{Response}
use sandobox_cpp.Redis.Commands.{Command, perform}
use sandobox_cpp.Redis.Socket.{Stream}
use sandobox_cpp.Redis.Client.{Client}

-- `none` stands for a write outside of a request's buffer.
pub record Server : Type 1 where
  pub State : Type 0
  pub call : Command → State → Option (Result Response × State)

infixl 5 ◌>>=◌
abbrev pub ◌>>=◌ : {A B : Type 0} → Option A → (A → Option B) → Option B
none >>= f = none
some a >>= f = f a

-- The client of the program.
abbrev pub over_redis : Stream → Server
over_redis k = record { State = Client k; call = perform }

abbrev pub keep :
    {S : Type 0}
    → List Command
    → Result Response × S
    → Option (Result Response × (S × List Command))
keep sent (reply, s) = some (reply, (s, sent))

-- A server that keeps the commands that it is sent.
abbrev pub tapped : Server → Server
tapped srv = record {
  State = srv.State × List Command;
  call = λ command (s, sent). srv.call command s >>= keep (sent ++ command ∷ []);
}
