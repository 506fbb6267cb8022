-- ===== src/ThreadPool.antt =====
-- utility/ThreadPool: ThreadPool.cpp and the `submit` of ThreadPool.h. A run is a sequence of steps of
-- the callers and of the workers; a step that has to wait changes nothing. A task is a number, and
-- `submitted` and `started` record what went in and what a worker took, in order.
pub mod Stopping
use ix_library.Base.{
  ℕ, zero, suc, Bool, true, false, Option, none, some, List, [], ◌∷◌, ◌++◌, replicate,
  if◌then◌else◌,
}

-- Where a worker stands in `worker_loop`: at the test of the loop, at the wait, in a task, or returned.
pub data Worker : Type 0 where
  testing waiting returned : Worker
  running : ℕ → Worker

pub record ThreadPool : Type 0 where
  pub workers : List Worker
  pub tasks : List ℕ
  pub stop : Bool
  pub submitted : List ℕ
  pub started : List ℕ

unfoldable pub create : ℕ → ThreadPool
create thread_count = record {
  workers = replicate thread_count testing;
  tasks = [];
  stop = false;
  submitted = [];
  started = [];
}

-- What a worker does in one step: where it stands then, what it takes, and what is left.
pub record Moved : Type 0 where
  pub worker : Worker
  pub taken : List ℕ
  pub left : List ℕ

unfoldable pub advance : Worker → Bool → List ℕ → Option Moved
advance testing true tasks = some (record { worker = returned; taken = []; left = tasks })
advance testing false tasks = some (record { worker = waiting; taken = []; left = tasks })
advance waiting true [] = some (record { worker = returned; taken = []; left = [] })
advance waiting false [] = none
advance waiting true (task ∷ tasks) =
    some (record { worker = running task; taken = task ∷ []; left = tasks })
advance waiting false (task ∷ tasks) =
    some (record { worker = running task; taken = task ∷ []; left = tasks })
advance returned stop tasks = none
advance (running task) stop tasks = some (record { worker = testing; taken = []; left = tasks })

-- `submit` throws once the pool was stopped.
unfoldable pub submit : ℕ → ThreadPool → Option ThreadPool
submit task p =
    if p.stop
    then none
    else some (record p { tasks = p.tasks ++ (task ∷ []); submitted = p.submitted ++ (task ∷ []) })

-- The destructor up to the joins.
unfoldable pub shut_down : ThreadPool → ThreadPool
shut_down p = record p { stop = true }

abbrev pub moved : ThreadPool → List Worker → Moved → ThreadPool
moved p workers m = record p { workers = workers; tasks = m.left; started = p.started ++ m.taken }

-- A step of the worker with a number, `front` the workers before it.
unfoldable pub worker_step : ℕ → List Worker → List Worker → ThreadPool → Option ThreadPool
unfolding advance
worker_step i front [] p = none
worker_step zero front (w ∷ ws) p = elim (advance w p.stop p.tasks) [
  | none ↦ none
  | some m ↦ some (moved p (front ++ (m.worker ∷ ws)) m)
]
worker_step (suc i) front (w ∷ ws) p = worker_step i (front ++ (w ∷ [])) ws p

pub data Act : Type 0 where
  submits : ℕ → Act
  steps : ℕ → Act
  stops : Act

unfoldable pub act : Act → ThreadPool → Option ThreadPool
unfolding submit shut_down worker_step
act (submits task) p = submit task p
act (steps i) p = worker_step i [] p.workers p
act stops p = some (shut_down p)

unfoldable pub run : List Act → ThreadPool → ThreadPool
unfolding act
run [] p = p
run (a ∷ acts) p = elim (act a p) [ none ↦ run acts p | some q ↦ run acts q ]
