-- ===== src/Base/Held.antt =====
-- What a process holds: its open descriptors or its allocated blocks, by number.
use Prim.Native.Nat.{ℕ}
use mathlib.Core.Path.{◌≡◌, refl}
use mathlib.Core.Bool.{not}
use mathlib.Core.List.{List, [], ◌∷◌}
use mathlib.Core.Logic.{◌≢◌}
use native.Mathlib.Omega.{arith}
use sandobox_cpp.Base.Tests.{◌==◌}
use sandobox_cpp.Base.Lists.{filter}

-- what is left after d is given back
abbrev pub close_fd : ℕ → List ℕ → List ℕ
close_fd d = filter (λ e. not (e == d))

-- d is none of them.
abbrev pub IsFresh : ℕ → List ℕ → Type 0
IsFresh d [] = Unit
IsFresh d (e ∷ es) = (e ≢ d) × IsFresh d es

pub close_fd-fresh : (d : ℕ) (fds : List ℕ) → IsFresh d fds → close_fd d fds ≡ fds
close_fd-fresh d [] h = refl
close_fd-fresh d (e ∷ es) h = ground (arith, close_fd-fresh d es h.1)

pub close_fd-cons : (d : ℕ) (fds : List ℕ) → IsFresh d fds → close_fd d (d ∷ fds) ≡ fds
close_fd-cons d fds h = ground (arith, close_fd-fresh d fds h)
