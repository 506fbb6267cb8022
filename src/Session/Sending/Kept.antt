-- ===== src/Session/Sending/Kept.antt =====
-- What becomes of the messages that are given to `Session::send`.
use ix_library.Base.{ℕ, ◌+◌, ◌≡◌, Bool, Option, none, some, List, [], ◌∷◌, ◌++◌}
use ix_library.Wire.{Bytes}
use ix_library.Session.Sending.{
  Activity, sends, pushes, takes, starts, ends, Sender, Step, send, written, goes,
}

-- Messages counted by any measure.
abbrev pub total : (Bytes → ℕ) → List Bytes → ℕ
total w [] = 0
total w (m ∷ ms) = w m + total w ms

abbrev pub to_push : (Bytes → ℕ) → Activity → ℕ
to_push w (sends m) = w m
to_push w (pushes m b) = w m
to_push w takes = 0
to_push w (starts m) = 0
to_push w (ends b) = 0

abbrev pub to_start : (Bytes → ℕ) → Activity → ℕ
to_start w (sends m) = 0
to_start w (pushes m b) = 0
to_start w takes = 0
to_start w (starts m) = w m
to_start w (ends b) = 0

abbrev pub over : (Activity → ℕ) → List Activity → ℕ
over f [] = 0
over f (a ∷ acts) = f a + over f acts

-- What was taken off the queue, then what is in it, is what was put in, in order. By any measure, the
-- messages of `send` were put in or are still to be, and those that were taken off were given to
-- `async_write_some` or are still to be.
pub record IsKept (w : Bytes → ℕ) (sent : ℕ) (s : Sender) : Type 0 where
  pub order : s.taken ++ s.send_queue ≡ s.pushed
  pub entered : total w s.pushed + over (to_push w) s.active ≡ sent
  pub left : total w s.started + over (to_start w) s.active ≡ total w s.taken

-- Of a run that did not come to `front` of an empty queue.
abbrev pub KeptIf : (Bytes → ℕ) → ℕ → Option Sender → Type 0
KeptIf w sent none = Unit {0}
KeptIf w sent (some s) = IsKept w sent s

abbrev pub messages : List Step → List Bytes
messages [] = []
messages (send m ∷ xs) = m ∷ messages xs
messages (written failed ∷ xs) = messages xs
messages (goes i ∷ xs) = messages xs

abbrev Picked : (Activity → ℕ) → List Activity → Option (Activity × List Activity) → Type 0
Picked f acts none = Unit {0}
Picked f acts (some (a, rest)) = over f acts ≡ f a + over f rest

-- What one thread does: each activity comes to its end before the next begins.
pub data Alone : Type 0 where
  send_alone : Bytes → Alone
  written_alone : Bool → Alone

abbrev pub alone : List Alone → List Step
alone [] = []
alone (send_alone m ∷ xs) = send m ∷ goes 0 ∷ goes 0 ∷ goes 0 ∷ goes 0 ∷ alone xs
alone (written_alone failed ∷ xs) = written failed ∷ goes 0 ∷ alone xs

abbrev pub all_sent : List Bytes → Sender
all_sent ms = record { send_queue = []; pushed = ms; taken = ms; started = ms; active = [] }
