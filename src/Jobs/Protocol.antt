-- ===== src/Jobs/Protocol.antt =====
-- The job loop with the client of the program over a live stream.
use sandobox_cpp.Base.{
  ℕ, ◌+◌, ◌^◌, ◌≤◌, ◌≡◌, refl, sym, ap, ◌∙◌, subst, Bytes, List, [], ◌∷◌, ◌++◌, append_assoc,
  append-nil, length, le_bytes, ltb, ltb→lt, Bool, true, false, Option, none, some, if◌then◌else◌,
}
use sandobox_cpp.Result.{Result, ok}
use sandobox_cpp.Redis.Response.{Response}
use sandobox_cpp.Redis.Wire.{encode, IsWire}
use sandobox_cpp.Redis.Socket.{Stream}
use sandobox_cpp.Redis.Frame.Layout.{frame, body, Fits}
use sandobox_cpp.Redis.Client.{Client, is_connected, max_frame}
use sandobox_cpp.Redis.Client.Exchange.{IsLive, send_round_trip}
use sandobox_cpp.Redis.Commands.{Command, arguments, perform}
use sandobox_cpp.Sandbox.Reading.{Pipe}
use sandobox_cpp.Jobs.Calls.{Server, over_redis, tapped, keep, ◌>>=◌}
use sandobox_cpp.Jobs.Follows.{Simulates, put, Follows-some}
use sandobox_cpp.Jobs.Follows.Rounds.{job_loop-Follows}
use sandobox_cpp.Jobs.{Doubles, World, Machine, job_loop}

-- A server that has its replies ready, and answers a request that fits with the next one.
abbrev next_reply : Command → List Response → Option (Result Response × List Response)
next_reply c [] = none
next_reply c (v ∷ vs) =
    if ltb (8 + length (body (arguments c))) (2 ^ 32) then some (ok v, vs) else none

abbrev pub replay : Server
replay = record { State = List Response; call = next_reply }

-- The replies, each in its frame, and the requests.
unfoldable pub reply_frames : List Response → Bytes
reply_frames [] = []
reply_frames (v ∷ vs) = le_bytes 4 (length (encode v)) ++ (encode v ++ reply_frames vs)

unfoldable pub request_frames : List Command → Bytes
request_frames [] = []
request_frames (c ∷ cs) = frame (arguments c) ++ request_frames cs

-- Each reply can be encoded, in a frame of a permitted size.
abbrev pub AreSendable : List Response → Type 0
AreSendable [] = Unit
AreSendable (v ∷ vs) = IsWire v × (length (encode v) ≤ max_frame) × AreSendable vs

request_frames-snoc :
    (cs : List Command) (c : Command)
    → request_frames (cs ++ c ∷ []) ≡ request_frames cs ++ frame (arguments c)
unfolding request_frames
request_frames-snoc [] c = append-nil (frame (arguments c))
request_frames-snoc (d ∷ cs) c =
    ap (λ bs. frame (arguments d) ++ bs) (request_frames-snoc cs c)
    ∙ sym (append_assoc (frame (arguments d)) (request_frames cs) (frame (arguments c)))

-- A reply is the one that was ready, to a request that fits.
replied :
    (fits : Bool) {v : Response} {vs : List Response} {cs : List Command} {r : Result Response}
    {t' : List Response × List Command}
    → ((if fits then some (ok v, vs) else none) >>= keep cs) ≡ some (r, t')
    → (fits ≡ true)
      × ◌≡◌ {A = Result Response × (List Response × List Command)} (ok v, (vs, cs)) (r, t')
replied true e = (refl, cc e)
replied false e = cc e

module _ (k : Stream) (base : Bytes) where
  -- The client is connected, the replies that are left are to come, and the commands have gone out.
  pub record InStep (c : Client k) (t : List Response × List Command) : Type 0 where
    pub up : is_connected c ≡ true
    pub to_come : k.pending c.stream ≡ reply_frames t.0
    pub gone_out : k.sent c.stream ≡ base ++ request_frames t.1
    pub sendable : AreSendable t.0

  Answered : Command → Client k → Result Response × (List Response × List Command) → Type 0
  Answered c s (r, t') = (s' : Client k) × (perform c s ≡ some (r, s')) × InStep s' t'

  answer :
      IsLive k
      → (c : Command) (s : Client k) (v : Response) (vs : List Response) (cs : List Command)
      → InStep s (v ∷ vs, cs)
      → Fits (arguments c)
      → Answered c s (ok v, (vs, cs ++ c ∷ []))
  unfolding perform reply_frames Answered
  answer live c s v vs cs h fits =
      let (w, small, rest) = h.sendable in
      let (s', e, left, out, on) =
        send_round_trip k live (arguments c) s v (reply_frames vs) h.up fits w small h.to_come in
      (
        s',
        e,
        record {
          up = on;
          to_come = left;
          gone_out =
              out
              ∙ (ap (λ bs. bs ++ frame (arguments c)) h.gone_out
                  ∙ (append_assoc base (request_frames cs) (frame (arguments c))
                      ∙ ap (λ bs. base ++ bs) (sym (request_frames-snoc cs c))));
          sendable = rest;
        },
      )

  answers :
      IsLive k
      → (c : Command) (s : Client k) (t : List Response × List Command) (r : Result Response)
        (t' : List Response × List Command)
      → InStep s t
      → (tapped replay).call c t ≡ some (r, t')
      → (s' : Client k) × (perform c s ≡ some (r, s')) × InStep s' t'
  unfolding Answered
  answers live c s ([], cs) r t' h e = cc e
  answers live c s (v ∷ vs, cs) r t' h e =
      let (fits, same) = replied (ltb (8 + length (body (arguments c))) (2 ^ 32)) e in
      subst (Answered c s) same (answer live c s v vs cs h (ltb→lt _ _ fits))

  simulation : IsLive k → Simulates (over_redis k) (tapped replay)
  simulation live = record { Rel = InStep; answers = answers live }

-- On a live stream, with a client that is connected and the frames of replies of a permitted size to
-- come: where the loop goes through against a server that gives these replies in turn, the loop of the
-- program goes through as well, to the same log, metrics, counts and ledger. What it has sent is the
-- frames of the commands that the server was given, in their order, and what it has left is the frames
-- of the replies that the server has left.
pub job_loop_speaks :
    (k : Stream)
    → IsLive k
    → (d : Doubles) (clock : ℕ → ℕ) (sandbox_id : Bytes) (use_seccomp : Bool) (p : Pipe)
      (ms : List (Machine p)) (c : Client k) (v v' : World (List Response × List Command) d.V)
    → is_connected c ≡ true
    → k.pending c.stream ≡ reply_frames v.redis.0
    → AreSendable v.redis.0
    → v.redis.1 ≡ []
    → job_loop (tapped replay) d clock sandbox_id use_seccomp p ms v ≡ some v'
    → (c' : Client k) × (job_loop (over_redis k) d clock sandbox_id use_seccomp p ms (put c v)
        ≡ some (put c' v'))
      × (k.pending c'.stream ≡ reply_frames v'.redis.0)
      × (k.sent c'.stream ≡ k.sent c.stream ++ request_frames v'.redis.1)
unfolding request_frames simulation
job_loop_speaks k live d clock sandbox_id use_seccomp p ms c v v' up to_come sendable fresh e =
    let start : InStep k (k.sent c.stream) c v.redis = record {
      up = up;
      to_come = to_come;
      gone_out = sym (ap (λ cs. k.sent c.stream ++ request_frames cs) fresh ∙ append-nil _);
      sendable = sendable;
    } in
    let (c', e', step) =
      Follows-some (simulation k (k.sent c.stream) live) d
        (job_loop-Follows (simulation k (k.sent c.stream) live) d clock sandbox_id use_seccomp p ms
          c v start)
        e in
    (c', e', step.to_come, step.gone_out)
