-- ===== src/Metrics/Server/Sockets.antt =====
-- The listening socket over start and stop.
use sandobox_cpp.Base.{
  close_fd, ℕ, ◌≡◌, ◌≢◌, ◌↔◌, refl, List, [], ◌∷◌, true, ◌&&◌, Option, none, some, is_some, ◌==◌,
  ==_iff, arith, Bool-cases, inl, inr, Option-cases, sym, ap, ◌∙◌,
}
use sandobox_cpp.Metrics.Server.{MetricsServer, Binding, listen_on, start, stop}

-- The server has its own socket open, and no other.
abbrev pub Owns : {V : Type 0} → MetricsServer V → Type 0
Owns s = s.open_fds ≡ (elim s.server_fd [ none ↦ [] | some d ↦ d ∷ [] ])

stop-listen_on :
    {V : Type 0} (d : ℕ) (b : Binding) (s : MetricsServer V)
    → s.server_fd ≡ some d
    → (stop (listen_on d b s).1).open_fds ≡ close_fd d s.open_fds
unfolding stop listen_on
stop-listen_on d b s e = ground arith

stop-start :
    {V : Type 0} (d : ℕ) (b : Binding) (s : MetricsServer V)
    → b.socket ≡ some d
    → (stop (start b s).1).open_fds ≡ close_fd d s.open_fds
unfolding start
stop-start d b s e =
    rw (e, start)
      (stop-listen_on d b (record s { server_fd = some d; open_fds = d ∷ s.open_fds }) refl
        ∙ (let same : (d == d) ≡ true = (==_iff d d).1 refl in rw same refl))

stop-start-none :
    {V : Type 0} (b : Binding) (s : MetricsServer V)
    → b.socket ≡ none
    → (stop (start b s).1).open_fds ≡ s.open_fds
unfolding start stop
stop-start-none b s e = rw (e, start) refl

kept :
    (d : ℕ) (old : Option ℕ)
    → old ≢ some d
    → close_fd d (elim old [ none ↦ [] | some e ↦ e ∷ [] ])
      ≡ (elim old [ none ↦ [] | some e ↦ e ∷ [] ])
kept d none h = refl
kept d (some e) h = elim (Bool-cases (e == d)) [
  | inl same ↦ absurd (h (ap some ((==_iff e d).0 same)))
  | inr other ↦ rw other refl
]

owned-nil :
    (old : Option ℕ) (fds : List ℕ)
    → fds ≡ (elim old [ none ↦ [] | some e ↦ e ∷ [] ])
    → (fds ≡ []) ↔ (old ≡ none)
owned-nil none fds h = (λ _. refl, λ _. h)
owned-nil (some e) fds h = (λ x. cc, λ x. cc)

-- Of a server that owns just its own socket: start succeeds exactly if socket, bind and listen do; and
-- start and then stop, whatever the operating system answers, leaves no socket open exactly if start
-- was called on a server that had none, since start forgets the socket of a server that is running.
pub start_leaks_iff :
    {V : Type 0} (b : Binding) (s : MetricsServer V)
    → Owns s
    → ((d : ℕ) → b.socket ≡ some d → s.server_fd ≢ some d)
    → (((start b s).0 ≡ true) ↔ ((is_some b.socket && b.bound && b.listening) ≡ true))
      × (((stop (start b s).1).open_fds ≡ []) ↔ (s.server_fd ≡ none))
unfolding start listen_on
start_leaks_iff b s owns fresh =
    let left : (stop (start b s).1).open_fds ≡ s.open_fds = elim (Option-cases b.socket) [
      | inl e ↦ stop-start-none b s e
      | inr (d, e) ↦
          stop-start d b s e ∙ (ap (close_fd d) owns ∙ (kept d s.server_fd (fresh d e) ∙ sym owns))
    ] in
    let none_open = owned-nil s.server_fd s.open_fds owns in
    (ground arith, (λ closed. none_open.0 (sym left ∙ closed), λ idle. left ∙ none_open.1 idle))
