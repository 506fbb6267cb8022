-- ===== src/SqlConnectionPool/Conservation.antt =====
-- Where the connections are, and when one is asked for that is not there.
use ix_library.Base.{
  ℕ, zero, suc, ◌+◌, ◌<◌, ◌≡◌, ◌≢◌, refl, subst, Option, none, some, List, [], ◌∷◌, ◌++◌, length,
  length-append, ◌==◌, if◌then◌else◌, arith,
}
use ix_library.SqlConnectionPool.{
  SqlConnectionPool, connections, get_connection, release_connections, with_connection, acquire,
  take_out, destroy, Op, acquires, destroys, step, Reached, first, next,
}

IsThere : {A : Type 0} → Option A → Type 0
IsThere none = ⊥
IsThere (some a) = Unit

some≢none : {A : Type 0} {a : A} → ¬ (some a ≡ none)
unfolding IsThere
some≢none e = subst IsThere e tt

-- How often a connection is in a list.
abbrev pub count : ℕ → List ℕ → ℕ
count c [] = 0
count c (d ∷ ds) = (if d == c then 1 else 0) + count c ds

count-append : (c : ℕ) (xs ys : List ℕ) → count c (xs ++ ys) ≡ count c xs + count c ys
count-append c [] ys = omega arith
count-append c (x ∷ xs) ys = omega (arith, count-append c xs ys)

abbrev IsOut : List ℕ → Option (ℕ × List ℕ) → Type 0
IsOut xs none = Unit {0}
IsOut xs (some (y, ys)) = ((c : ℕ) → count c xs ≡ count c (y ∷ ys)) × (length xs ≡ suc (length ys))

take_out-IsOut : (i : ℕ) (xs : List ℕ) → IsOut xs (take_out i xs)
unfolding take_out
take_out-IsOut i [] = tt
take_out-IsOut zero (x ∷ xs) = ((λ c. refl), refl)
take_out-IsOut (suc i) (x ∷ xs) = by_rest (take_out i xs) (take_out-IsOut i xs)
  where
    by_rest :
        (o : Option (ℕ × List ℕ))
        → IsOut xs o
        → IsOut (x ∷ xs) (elim o [ none ↦ none | some (d, ds) ↦ some (d, x ∷ ds) ])
    by_rest none h = tt
    by_rest (some (d, ds)) (h, l) = ((λ c. omega (arith, h c)), omega (arith, l))

-- Each connection is in the queue or held, and in one place.
record IsWhole (p : SqlConnectionPool) : Type 0 where
  places : (c : ℕ) → count c p.pool + count c p.held ≡ count c connections
  number : length p.pool + length p.held ≡ 10

abbrev IsWholeAfter : Option SqlConnectionPool → Type 0
IsWholeAfter none = Unit {0}
IsWholeAfter (some p) = IsWhole p

acquire-IsWhole : (p : SqlConnectionPool) → IsWhole p → IsWholeAfter (acquire p)
unfolding acquire get_connection
acquire-IsWhole p w = by_queue p.pool w.places w.number
  where
    by_queue :
        (cs : List ℕ)
        → ((c : ℕ) → count c cs + count c p.held ≡ count c connections)
        → length cs + length p.held ≡ 10
        → IsWholeAfter (with_connection p.held (get_connection cs))
    by_queue [] a b = tt
    by_queue (c ∷ cs) a b = record {
      places = λ d. omega (arith, a d, count-append d p.held (c ∷ []));
      number = omega (arith, b, length-append p.held (c ∷ []));
    }

destroy-IsWhole : (i : ℕ) (p : SqlConnectionPool) → IsWhole p → IsWhole (destroy i p)
unfolding destroy release_connections
destroy-IsWhole i p w = by_object (take_out i p.held) (take_out-IsOut i p.held)
  where
    by_object :
        (o : Option (ℕ × List ℕ))
        → IsOut p.held o
        → IsWhole (elim o [
          | none ↦ p
          | some (c, cs) ↦ record { pool = release_connections c p.pool; held = cs }
        ])
    by_object none h = w
    by_object (some (c, cs)) (h, l) = record {
      places = λ d. omega (arith, w.places d, h d, count-append d p.pool (c ∷ []));
      number = omega (arith, w.number, l, length-append p.pool (c ∷ []));
    }

step-IsWhole : (op : Op) (p : SqlConnectionPool) → IsWhole p → IsWholeAfter (step op p)
unfolding step
step-IsWhole acquires p w = acquire-IsWhole p w
step-IsWhole (destroys i) p w = destroy-IsWhole i p w

Reached-IsWhole : {p : SqlConnectionPool} → Reached p → IsWhole p
Reached-IsWhole first = record { places = λ c. omega arith; number = refl }
Reached-IsWhole (next {p = p} op r e) = subst IsWholeAfter e (step-IsWhole op p (Reached-IsWhole r))

acquire-held :
    (p : SqlConnectionPool)
    → IsWhole p
    → (length p.held < 10 → acquire p ≢ none) × (length p.held ≡ 10 → acquire p ≡ none)
unfolding acquire get_connection
acquire-held p w = by_queue p.pool w.number
  where
    by_queue :
        (cs : List ℕ)
        → length cs + length p.held ≡ 10
        → (length p.held < 10 → with_connection p.held (get_connection cs) ≢ none)
          × (length p.held ≡ 10 → with_connection p.held (get_connection cs) ≡ none)
    by_queue [] b = ((λ l. absurd (omega (arith, b, l))), λ l. refl)
    by_queue (c ∷ cs) b = ((λ l e. some≢none e), λ l. absurd (omega (arith, b, l)))

-- Whatever objects were made and destroyed: each connection is in the queue or with one object; while
-- fewer than ten are with objects, an object can be made, and with all ten taken, the next one takes
-- the front of an empty queue.
pub connections_kept :
    (p : SqlConnectionPool)
    → Reached p
    → ((c : ℕ) → count c p.pool + count c p.held ≡ count c connections)
      × ((length p.held < 10 → acquire p ≢ none) × (length p.held ≡ 10 → acquire p ≡ none))
connections_kept p r = (IsWhole.places (Reached-IsWhole r), acquire-held p (Reached-IsWhole r))
