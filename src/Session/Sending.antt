-- ===== src/Session/Sending.antt =====
-- projects/Server/src/Session/Session.cpp: the sending half of a connection, `send` and `do_write`.
-- Three threads run the io_context, with no strand: the lambda that `send` posts and the handler of
-- a write are activities that go on in any interleaving. One step of an activity is one call on
-- `send_queue`, or the start of a write; in truth two such calls at once are a data race.
pub mod Kept
use ix_library.Base.{
  ℕ, zero, suc, Bool, true, false, not, Option, none, some, List, [], ◌∷◌, ◌++◌, if◌then◌else◌,
}
use ix_library.Wire.{Bytes}

-- What is still to be done: the lambda of `send`, before and after it has looked at the queue; `do_write`
-- before and after it has taken a message off; and the handler of a write, with whether that failed.
pub data Activity : Type 0 where
  sends : Bytes → Activity
  pushes : Bytes → Bool → Activity
  takes : Activity
  starts : Bytes → Activity
  ends : Bool → Activity

-- `pushed` and `taken` record what went into the queue and came off it, `started` what was given to
-- `async_write_some`.
pub record Sender : Type 0 where
  pub send_queue : List Bytes
  pub pushed : List Bytes
  pub taken : List Bytes
  pub started : List Bytes
  pub active : List Activity

abbrev pub idle : Sender
idle = record { send_queue = []; pushed = []; taken = []; started = []; active = [] }

abbrev pub is_empty : List Bytes → Bool
is_empty [] = true
is_empty (m ∷ ms) = false

abbrev pub later : Activity → Sender → Sender
later a s = record s { active = a ∷ s.active }

abbrev pub push : Bytes → Sender → Sender
push m s = record s { send_queue = s.send_queue ++ (m ∷ []); pushed = s.pushed ++ (m ∷ []) }

-- The first half of `do_write`, under its mutex; `none`: `front` of an empty queue.
unfoldable pub take_front : Sender → Option Sender
take_front s = elim s.send_queue [
  | [] ↦ none
  | m ∷ rest ↦ some (later (starts m) (record s { send_queue = rest; taken = s.taken ++ (m ∷ []) }))
]

-- The next step of an activity.
unfoldable pub act : Activity → Sender → Option Sender
unfolding take_front
act (sends m) s = some (later (pushes m (not (is_empty s.send_queue))) s)
act (pushes m true) s = some (push m s)
act (pushes m false) s = some (later takes (push m s))
act takes s = take_front s
act (starts m) s = some (record s { started = s.started ++ (m ∷ []) })
act (ends true) s = some s
act (ends false) s = if is_empty s.send_queue then some s else some (later takes s)

unfoldable pub pick : ℕ → List Activity → Option (Activity × List Activity)
pick n [] = none
pick zero (x ∷ xs) = some (x, xs)
pick (suc n) (x ∷ xs) = elim (pick n xs) [ none ↦ none | some (y, ys) ↦ some (y, x ∷ ys) ]

-- A call of `send`, the end of a write, or a step of the activity at a position.
pub data Step : Type 0 where
  send : Bytes → Step
  written : Bool → Step
  goes : ℕ → Step

unfoldable pub take_step : Step → Sender → Option Sender
unfolding pick act
take_step (send m) s = some (later (sends m) s)
take_step (written failed) s = some (later (ends failed) s)
take_step (goes i) s = elim (pick i s.active) [
  | none ↦ some s
  | some (a, rest) ↦ act a (record s { active = rest })
]

unfoldable pub run : List Step → Sender → Option Sender
unfolding take_step
run [] s = some s
run (x ∷ xs) s = elim (take_step x s) [ none ↦ none | some t ↦ run xs t ]
