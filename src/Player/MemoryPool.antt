-- ===== src/Player/MemoryPool.antt =====
-- `MemoryPool<T>` of projects/龙卷风播放器/src/utils/MemoryPool/MemoryPool.h: a queue of raw storage
-- that grows by doubling. An address is a number; `operator new` gives the next one. `none`: the
-- code calls `front` or `pop` on an empty queue.
pub mod Accounts
use ix_library.Base.{
  ℕ, zero, suc, ◌+◌, ◌*◌, ◌/◌, Option, none, some, List, [], ◌∷◌, ◌++◌, length, ltb, if◌then◌else◌,
}

pub record Pool : Type 0 where
  pub storage : List ℕ
  pub size : ℕ
  pub next_address : ℕ

-- `n` addresses from `a` on.
unfoldable pub fresh : ℕ → ℕ → List ℕ
fresh zero a = []
fresh (suc n) a = a ∷ fresh n (a + 1)

unfoldable pub allocate_memo : Pool → Pool
allocate_memo p = record {
  storage = p.storage ++ fresh p.size p.next_address;
  size = p.size * 2;
  next_address = p.next_address + p.size;
}

unfoldable pub construct : ℕ → Pool
unfolding allocate_memo
construct size = allocate_memo (record { storage = []; size = size; next_address = 0 })

-- `front` and `pop`.
abbrev pub pop_front : Pool → Option (ℕ × Pool)
pop_front p = elim p.storage [ [] ↦ none | a ∷ rest ↦ some (a, record p { storage = rest }) ]

-- The object is built in the storage that is returned.
unfoldable pub get : Pool → Option (ℕ × Pool)
unfolding allocate_memo
get p = elim p.storage [ [] ↦ pop_front (allocate_memo p) | a ∷ rest ↦ pop_front p ]

-- The deleter of the `unique_ptr`, and `return_obj`: both destroy the object and queue its storage.
unfoldable pub return_obj : Pool → ℕ → Pool
return_obj p raw = record p { storage = p.storage ++ (raw ∷ []) }

-- The loop of `release_memo`.
unfoldable pub delete_front : ℕ → List ℕ → Option (List ℕ)
delete_front zero xs = some xs
delete_front (suc n) [] = none
delete_front (suc n) (x ∷ xs) = delete_front n xs

unfoldable pub release_memo : Pool → Option Pool
unfolding delete_front
release_memo p =
    if ltb (p.size / 2) (length p.storage)
    then (elim (delete_front p.size p.storage) [
      | none ↦ none
      | some rest ↦ some (record p { storage = rest })
    ])
    else some p

-- A pool with the storage that live objects stand in, newest first.
pub record World : Type 0 where
  pub pool : Pool
  pub live : List ℕ

-- What a client does: make an object, or drop the live object of a given position.
pub data Call : Type 0 where
  make : Call
  lose : ℕ → Call

unfoldable pub take_out : ℕ → List ℕ → Option (ℕ × List ℕ)
take_out n [] = none
take_out zero (x ∷ xs) = some (x, xs)
take_out (suc n) (x ∷ xs) = elim (take_out n xs) [ none ↦ none | some (y, ys) ↦ some (y, x ∷ ys) ]

-- A call that is not possible changes nothing.
unfoldable pub step : World → Call → World
unfolding get return_obj take_out
step w make = elim (get w.pool) [ none ↦ w | some (a, p) ↦ record { pool = p; live = a ∷ w.live } ]
step w (lose i) = elim (take_out i w.live) [
  | none ↦ w
  | some (a, rest) ↦ record { pool = return_obj w.pool a; live = rest }
]

unfoldable pub run : World → List Call → World
run w [] = w
run w (c ∷ cs) = run (step w c) cs

abbrev pub begin : ℕ → World
begin size = record { pool = construct size; live = [] }
