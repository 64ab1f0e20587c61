-- ===== src/Supervisor/Act.antt =====
-- Calls on the supervisor: they return, wait for good (for a mutex that the thread holds itself, or
-- for a thread that does not end), or end the whole daemon (std::terminate, or a null pointer).
use sandobox_cpp.Base.{
  ◌++◌, ℕ, ℤ, Bytes, [], ◌∷◌, true, false, none, some, if◌then◌else◌, lookup, insert,
}
use sandobox_cpp.Supervisor.Types.{Supervisor, ProcessEntry, ProcessEvent, EventType, Signal}

pub data Outcome {ℓ} (A : Type ℓ) : Type ℓ where
  returns : A → Supervisor → Outcome A
  blocked : Outcome A
  terminated : Outcome A

abbrev pub Act {ℓ} : Type ℓ → Type ℓ
Act A = Supervisor → Outcome A

abbrev pub then_do {ℓ} : {A B : Type ℓ} → Outcome A → (A → Act B) → Outcome B
then_do (returns a s) f = f a s
then_do blocked f = blocked
then_do terminated f = terminated

infixl 5 ◌>>=◌ ◌>>◌
abbrev pub ◌>>=◌ {ℓ} : {A B : Type ℓ} → Act A → (A → Act B) → Act B
◌>>=◌ m f s = then_do (m s) f

abbrev pub ◌>>◌ : {B : Type 0} → Act (Unit {0}) → Act B → Act B
m >> n = m >>= λ _. n

abbrev pub pure {ℓ} : {A : Type ℓ} → A → Act A
pure a s = returns a s

abbrev pub modify : (Supervisor → Supervisor) → Act (Unit {0})
modify f s = returns tt (f s)

abbrev pub unlocked {ℓ} : {A : Type ℓ} → Outcome A → Outcome A
unlocked (returns a s) = returns a (record s { locked = false })
unlocked blocked = blocked
unlocked terminated = terminated

-- std::lock_guard over processes_mutex_, which is not recursive, round the rest of a call.
unfoldable pub with_lock {ℓ} : {A : Type ℓ} → Act A → Act A
with_lock body s = if s.locked then blocked else unlocked (body (record s { locked = true }))

-- auto& entry = processes_[name], for a name that is there; else the entry is a null pointer.
unfoldable pub the_entry : Bytes → Act ProcessEntry
the_entry name s = elim (lookup name s.processes) [
  | none ↦ terminated
  | some entry ↦ returns entry s
]

-- The entry is given new contents.
abbrev pub store : Bytes → ProcessEntry → Act (Unit {0})
store name entry = modify λ s. record s { processes = insert name entry s.processes }

abbrev pub kill : ℤ → Signal → Act (Unit {0})
kill pid signal = modify λ s. record s { signals = s.signals ++ (pid, signal) ∷ [] }

-- emit_event, at the time `now` of its clock.
unfoldable pub emit_event : ℕ → EventType → Bytes → ℤ → ℕ → Bytes → Act (Unit {0})
emit_event now type name pid exit_code msg s =
    if s.has_callback
    then returns tt (record s { emitted = s.emitted ++ event ∷ [] })
    else returns tt s
  where
    event : ProcessEvent
    event = record {
      type = type;
      process_name = name;
      pid = pid;
      exit_code = exit_code;
      timestamp = now;
      message = msg;
    }
