-- ===== src/Player/MemoryPool/Accounts.antt =====
-- Where the storage of a `MemoryPool` is, and what `release_memo` does to it.
use ix_library.Base.{
  ℕ, zero, suc, ◌+◌, ◌/◌, ◌≤◌, ◌<◌, ◌≡◌, refl, ap, Option, none, some, List, [], ◌∷◌, ◌++◌, length,
  length-append, ltb, leb, ◌==◌, if◌then◌else◌, arith, ◌&&◌, lt→ltb, le→ltb,
}
use ix_library.Player.MemoryPool.{
  Pool, fresh, allocate_memo, construct, pop_front, get, return_obj, delete_front, release_memo,
  World, Call, make, lose, take_out, step, run, begin,
}

abbrev pub count : ℕ → List ℕ → ℕ
count a [] = 0
count a (x ∷ xs) = (if x == a then 1 else 0) + count a xs

count-append : (us vs : List ℕ) (x : ℕ) → count x (us ++ vs) ≡ count x vs + count x us
count-append [] vs x = omega arith
count-append (u ∷ us) vs x = omega (arith, count-append us vs x)

length-fresh : (n a : ℕ) → length (fresh n a) ≡ n
unfolding fresh
length-fresh zero a = refl
length-fresh (suc n) a = omega (arith, length-fresh n (a + 1))

count-fresh : (n b a : ℕ) → count a (fresh n b) ≡ (if leb b a && ltb a (b + n) then 1 else 0)
unfolding fresh
count-fresh zero b a = ground arith
count-fresh (suc n) b a = ground (arith, count-fresh n (b + 1) a)

-- Each address that `operator new` gave is in one place, queued or live, and once; and `size` is
-- the number of these addresses and the first size together.
pub record IsSound (first : ℕ) (w : World) : Type 0 where
  pub once :
      (a : ℕ)
      → count a w.pool.storage + count a w.live ≡ (if ltb a w.pool.next_address then 1 else 0)
  pub total : length w.pool.storage + length w.live ≡ w.pool.next_address
  pub doubled : w.pool.size ≡ first + w.pool.next_address

allocate_memo-IsSound :
    {first : ℕ} (w : World)
    → IsSound first w
    → IsSound first (record w { pool = allocate_memo w.pool })
unfolding allocate_memo
allocate_memo-IsSound w v = record {
  once = λ a. ground (
    arith,
    v.once a,
    count-append w.pool.storage (fresh w.pool.size w.pool.next_address) a,
    count-fresh w.pool.size w.pool.next_address a,
  );
  total = omega (
    arith,
    v.total,
    length-append w.pool.storage (fresh w.pool.size w.pool.next_address),
    length-fresh w.pool.size w.pool.next_address,
  );
  doubled = omega (arith, v.doubled);
}

-- The front of the queue becomes live.
pop-IsSound :
    {first : ℕ} (p : Pool) (live : List ℕ) (x : ℕ) (rest : List ℕ)
    → p.storage ≡ x ∷ rest
    → IsSound first (record { pool = p; live = live })
    → IsSound first (record { pool = record p { storage = rest }; live = x ∷ live })
pop-IsSound p live x rest e v = record {
  once = λ a. omega (arith, v.once a, ap (count a) e);
  total = omega (arith, v.total, ap length e);
  doubled = v.doubled;
}

-- What is said of the result of `get` while the objects of `live` exist.
abbrev Gives : ℕ → List ℕ → Option (ℕ × Pool) → Type 0
Gives first live none = Unit {0}
Gives first live (some (a, q)) = IsSound first (record { pool = q; live = a ∷ live })

pop_front-Gives : {first : ℕ} (w : World) → IsSound first w → Gives first w.live (pop_front w.pool)
pop_front-Gives {first} w v = by_storage w.pool.storage refl
  where
    by_storage :
        (xs : List ℕ)
        → w.pool.storage ≡ xs
        → Gives first w.live (
            let r : Option (ℕ × Pool) = elim xs [
              | [] ↦ none
              | a ∷ rest ↦ some (a, record w.pool { storage = rest })
            ] in
            r)
    by_storage [] e = tt
    by_storage (x ∷ rest) e = pop-IsSound w.pool w.live x rest e v

get-Gives : {first : ℕ} (w : World) → IsSound first w → Gives first w.live (get w.pool)
unfolding get
get-Gives {first} w v =
    by_storage w.pool.storage
      (pop_front-Gives (record w { pool = allocate_memo w.pool }) (allocate_memo-IsSound w v))
      (pop_front-Gives w v)
  where
    by_storage :
        (xs : List ℕ)
        → Gives first w.live (pop_front (allocate_memo w.pool))
        → Gives first w.live (pop_front w.pool)
        → Gives first w.live (
            let r : Option (ℕ × Pool) = elim xs [
              | [] ↦ pop_front (allocate_memo w.pool)
              | a ∷ rest ↦ pop_front w.pool
            ] in
            r)
    by_storage [] grown old = grown
    by_storage (x ∷ rest) grown old = old

-- The object at a position, and the others.
abbrev Parts : List ℕ → Option (ℕ × List ℕ) → Type 0
Parts xs none = Unit {0}
Parts xs (some (x, ys)) =
    ((a : ℕ) → count a xs ≡ (if x == a then 1 else 0) + count a ys) × (length xs ≡ suc (length ys))

take_out-Parts : (i : ℕ) (xs : List ℕ) → Parts xs (take_out i xs)
unfolding take_out
take_out-Parts i [] = tt
take_out-Parts zero (z ∷ zs) = ((λ a. refl), refl)
take_out-Parts (suc i) (z ∷ zs) = onto (take_out i zs) (take_out-Parts i zs)
  where
    onto :
        (o : Option (ℕ × List ℕ))
        → Parts zs o
        → Parts (z ∷ zs) (
            let r : Option (ℕ × List ℕ) = elim o [
              | none ↦ none
              | some (y, ys) ↦ some (y, z ∷ ys)
            ] in
            r)
    onto none p = tt
    onto (some (y, ys)) p = ((λ a. omega (arith, p.0 a)), omega (arith, p.1))

return_obj-IsSound :
    {first : ℕ} (w : World) (x : ℕ) (ys : List ℕ)
    → Parts w.live (some (x, ys))
    → IsSound first w
    → IsSound first (record { pool = return_obj w.pool x; live = ys })
unfolding return_obj
return_obj-IsSound w x ys p v = record {
  once = λ a. omega (arith, v.once a, p.0 a, count-append w.pool.storage (x ∷ []) a);
  total = omega (arith, v.total, p.1, length-append w.pool.storage (x ∷ []));
  doubled = v.doubled;
}

step-IsSound : {first : ℕ} (w : World) (c : Call) → IsSound first w → IsSound first (step w c)
unfolding step
step-IsSound {first} w make v = made (get w.pool) (get-Gives w v)
  where
    made :
        (o : Option (ℕ × Pool))
        → Gives first w.live o
        → IsSound first (
            let r : World = elim o [
              | none ↦ w
              | some (a, p) ↦ record { pool = p; live = a ∷ w.live }
            ] in
            r)
    made none g = v
    made (some (a, p)) g = g
step-IsSound {first} w (lose i) v = lost (take_out i w.live) (take_out-Parts i w.live)
  where
    lost :
        (o : Option (ℕ × List ℕ))
        → Parts w.live o
        → IsSound first (
            let r : World = elim o [
              | none ↦ w
              | some (a, rest) ↦ record { pool = return_obj w.pool a; live = rest }
            ] in
            r)
    lost none p = v
    lost (some (a, rest)) p = return_obj-IsSound w a rest p v

run-IsSound : {first : ℕ} (cs : List Call) (w : World) → IsSound first w → IsSound first (run w cs)
unfolding run
run-IsSound [] w v = v
run-IsSound (c ∷ cs) w v = run-IsSound cs (step w c) (step-IsSound w c v)

begin-IsSound : (first : ℕ) → IsSound first (begin first)
unfolding construct
begin-IsSound first =
    allocate_memo-IsSound
      (record { pool = record { storage = []; size = first; next_address = 0 }; live = [] })
      (record { once = λ a. ground arith; total = refl; doubled = omega arith })

-- After any sequence of objects made and dropped, every address that was allocated is queued or is
-- under one live object, never both and never twice; so no two live objects share storage.
pub storage_owned_once :
    (first : ℕ) (cs : List Call) (a : ℕ)
    → let w = run (begin first) cs in
      count a w.pool.storage + count a w.live ≡ (if ltb a w.pool.next_address then 1 else 0)
storage_owned_once first cs a = (run-IsSound cs (begin first) (begin-IsSound first)).once a

delete_front-short : (n : ℕ) (xs : List ℕ) → length xs < n → delete_front n xs ≡ none
unfolding delete_front
delete_front-short zero xs h = absurd (omega arith)
delete_front-short (suc n) [] h = refl
delete_front-short (suc n) (x ∷ xs) h = delete_front-short n xs (omega arith)

-- The queue of a pool made with a positive first size, after any calls, is shorter than `size`. So
-- `release_memo` changes nothing while at most half of `size` is queued, and pops an empty queue
-- whenever there is more: it never frees storage as it means to.
pub release_memo_underflows :
    (first : ℕ) (cs : List Call)
    → 0 < first
    → let p = (run (begin first) cs).pool in
      (length p.storage ≤ p.size / 2 → release_memo p ≡ some p)
      × (p.size / 2 < length p.storage → release_memo p ≡ none)
unfolding release_memo
release_memo_underflows first cs positive =
    let w = run (begin first) cs in
    let v = run-IsSound cs (begin first) (begin-IsSound first) in
    let few : length w.pool.storage < w.pool.size = omega (arith, v.total, v.doubled) in
    (
      (λ h. rw (le→ltb (w.pool.size / 2) (length w.pool.storage) h)),
      (λ h. rw (
        lt→ltb (w.pool.size / 2) (length w.pool.storage) h,
        delete_front-short w.pool.size w.pool.storage few,
      )),
    )
