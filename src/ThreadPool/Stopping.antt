-- ===== src/ThreadPool/Stopping.antt =====
-- The order in which tasks start, and the tasks that a stopped pool leaves.
use ix_library.Base.{
  ℕ, zero, suc, ◌+◌, ◌≤◌, ◌≡◌, refl, sym, ap, subst, ◌∙◌, Bool, true, false, Bool-cases, inl, inr,
  ◌⊎◌, Option, none, some, List, [], ◌∷◌, ◌++◌, append_assoc, length, length-append,
  length-replicate, arith,
}
use mathlib.Core.Bool.{false≢true}
use ix_library.ThreadPool.{
  Worker, testing, waiting, returned, running, ThreadPool, create, Moved, advance, submit,
  shut_down, moved, worker_step, Act, submits, steps, stops, act, run,
}

-- The workers at the wait, each of which takes one task more.
abbrev waits : Worker → ℕ
waits testing = 0
waits waiting = 1
waits returned = 0
waits (running task) = 0

abbrev all_wait : List Worker → ℕ
all_wait [] = 0
all_wait (w ∷ ws) = waits w + all_wait ws

all_wait-append : (ws vs : List Worker) → all_wait (ws ++ vs) ≡ all_wait ws + all_wait vs
all_wait-append [] vs = omega arith
all_wait-append (w ∷ ws) vs = omega (arith, all_wait-append ws vs)

all_wait_bounded : (ws : List Worker) → all_wait ws ≤ length ws
all_wait_bounded [] = omega arith
all_wait_bounded (w ∷ ws) = omega (arith, one w, all_wait_bounded ws)
  where
    one : (v : Worker) → waits v ≤ 1
    one testing = omega arith
    one waiting = omega arith
    one returned = omega arith
    one (running task) = omega arith

-- What a worker's step takes is the front of the queue; once the pool is stopped, a worker that takes a
-- task stood at the wait, and no worker comes there again.
abbrev IsMove : Worker → Bool → List ℕ → Option Moved → Type 0
IsMove w stop tasks none = Unit {0}
IsMove w stop tasks (some m) =
    (tasks ≡ m.taken ++ m.left) × (stop ≡ true → length m.taken + waits m.worker ≤ waits w)

advance-IsMove :
    (w : Worker) (stop : Bool) (tasks : List ℕ) → IsMove w stop tasks (advance w stop tasks)
unfolding advance
advance-IsMove testing true tasks = (refl, λ s. omega arith)
advance-IsMove testing false tasks = (refl, λ s. elim (false≢true s) [ ])
advance-IsMove waiting true [] = (refl, λ s. omega arith)
advance-IsMove waiting false [] = tt
advance-IsMove waiting true (task ∷ tasks) = (refl, λ s. omega arith)
advance-IsMove waiting false (task ∷ tasks) = (refl, λ s. omega arith)
advance-IsMove returned stop tasks = tt
advance-IsMove (running task) stop tasks = (refl, λ s. omega arith)

-- What a step keeps, and what it does to a stopped pool.
record Steps (p q : ThreadPool) : Type 0 where
  queue : p.started ++ p.tasks ≡ p.submitted → q.started ++ q.tasks ≡ q.submitted
  many : length q.workers ≡ length p.workers
  after_stop :
      p.stop ≡ true
      → (q.stop ≡ true)
        × ((q.submitted ≡ p.submitted)
            × (length q.started + all_wait q.workers ≤ length p.started + all_wait p.workers))

abbrev IsSteps : ThreadPool → Option ThreadPool → Type 0
IsSteps p none = Unit {0}
IsSteps p (some q) = Steps p q

moved-Steps :
    (p : ThreadPool) (front : List Worker) (w : Worker) (ws : List Worker) (m : Moved)
    → p.workers ≡ front ++ (w ∷ ws)
    → IsMove w p.stop p.tasks (some m)
    → Steps p (moved p (front ++ (m.worker ∷ ws)) m)
moved-Steps p front w ws m e (takes, stopped) = record {
  queue = λ q. append_assoc p.started m.taken m.left ∙ ap (λ l. p.started ++ l) (sym takes) ∙ q;
  many =
      omega (arith, length-append front (m.worker ∷ ws), length-append front (w ∷ ws), ap length e);
  after_stop = λ s. (
    s,
    (
      refl,
      omega (
        arith,
        length-append p.started m.taken,
        all_wait-append front (m.worker ∷ ws),
        all_wait-append front (w ∷ ws),
        ap all_wait e,
        stopped s,
      ),
    ),
  );
}

worker_step-Steps :
    (i : ℕ) (front ws : List Worker) (p : ThreadPool)
    → p.workers ≡ front ++ ws
    → IsSteps p (worker_step i front ws p)
unfolding worker_step
worker_step-Steps i front [] p e = tt
worker_step-Steps zero front (w ∷ ws) p e =
    by_move (advance w p.stop p.tasks) (advance-IsMove w p.stop p.tasks)
  where
    by_move :
        (o : Option Moved)
        → IsMove w p.stop p.tasks o
        → IsSteps p (elim o [ none ↦ none | some m ↦ some (moved p (front ++ (m.worker ∷ ws)) m) ])
    by_move none h = tt
    by_move (some m) h = moved-Steps p front w ws m e h
worker_step-Steps (suc i) front (w ∷ ws) p e =
    worker_step-Steps i (front ++ (w ∷ [])) ws p (e ∙ sym (append_assoc front (w ∷ []) ws))

Steps-refl : (p : ThreadPool) → Steps p p
Steps-refl p = record { queue = λ q. q; many = refl; after_stop = λ s. (s, (refl, omega arith)) }

Steps-trans : {p q r : ThreadPool} → Steps p q → Steps q r → Steps p r
Steps-trans a b = record {
  queue = λ q. b.queue (a.queue q);
  many = b.many ∙ a.many;
  after_stop = λ s.
      let (t, (same, fewer)) = a.after_stop s in
      let (u, (again, less)) = b.after_stop t in (u, (again ∙ same, omega (arith, fewer, less)));
}

submit-Steps : (task : ℕ) (p : ThreadPool) → IsSteps p (submit task p)
unfolding submit
submit-Steps task p = by_stop (Bool-cases p.stop)
  where
    by_stop : (p.stop ≡ true) ⊎ (p.stop ≡ false) → IsSteps p (submit task p)
    by_stop (inl s) = rw (s, submit) tt
    by_stop (inr s) =
        rw (s, submit)
          (record {
            queue = λ q.
                sym (append_assoc p.started p.tasks (task ∷ [])) ∙ ap (λ l. l ++ (task ∷ [])) q;
            many = refl;
            after_stop = λ t. elim (false≢true t) [ ];
          })

act-Steps : (a : Act) (p : ThreadPool) → IsSteps p (act a p)
unfolding act shut_down
act-Steps (submits task) p = submit-Steps task p
act-Steps (steps i) p = worker_step-Steps i [] p.workers p refl
act-Steps stops p = record {
  queue = λ q. q;
  many = refl;
  after_stop = λ s. (refl, (refl, omega arith));
}

run-Steps : (acts : List Act) (p : ThreadPool) → Steps p (run acts p)
unfolding run
run-Steps [] p = Steps-refl p
run-Steps (a ∷ acts) p = by_act (λ q. run-Steps acts q) (act a p) (act-Steps a p)
  where
    by_act :
        ((q : ThreadPool) → Steps q (run acts q))
        → (o : Option ThreadPool) → IsSteps p o
        → Steps p (elim o [ none ↦ run acts p | some q ↦ run acts q ])
    by_act again none h = again p
    by_act again (some q) h = Steps-trans h (again q)

-- A pool of `n` workers that anything happened to is stopped, and anything happens after: tasks have
-- started in the order in which they were submitted, each once; nothing is accepted after the stop;
-- and of the tasks that were waiting at the stop, all but `n` at most are left in the queue for good.
pub stopped_pool_leaves_tasks :
    (n : ℕ) (before after : List Act) (p q : ThreadPool)
    → p ≡ run before (create n)
    → q ≡ run after (shut_down p)
    → (q.started ++ q.tasks ≡ q.submitted)
      × ((q.submitted ≡ p.submitted) × (length p.tasks ≤ length q.tasks + n))
unfolding create shut_down
stopped_pool_leaves_tasks n before after p q ep eq =
    let first = subst (Steps (create n)) (sym ep) (run-Steps before (create n)) in
    let then_on = subst (Steps (shut_down p)) (sym eq) (run-Steps after (shut_down p)) in
    let queue_p = first.queue refl in
    let queue_q = then_on.queue queue_p in
    let (s, (same, fewer)) = then_on.after_stop refl in
    (
      queue_q,
      (
        same,
        omega (
          arith,
          fewer,
          all_wait_bounded p.workers,
          first.many,
          length-replicate n testing,
          ap length queue_p,
          ap length queue_q,
          ap length same,
          length-append p.started p.tasks,
          length-append q.started q.tasks,
        ),
      ),
    )
