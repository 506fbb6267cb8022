-- ===== src/SqlConnectionPool.antt =====
-- projects/Server/src/utility/SqlConnectionPool/SqlConnectionPool.cpp: ten connections, each in the
-- queue or with a `SqlConnRALL`. A connection is a number; the driver is outside the repository.
pub mod Conservation
use ix_library.Base.{ℕ, zero, suc, ◌≡◌, Option, none, some, List, [], ◌∷◌, ◌++◌}

-- `held` is the connections of the `SqlConnRALL`s that are there, in the order of their making.
pub record SqlConnectionPool : Type 0 where
  pub pool : List ℕ
  pub held : List ℕ

abbrev pub connections : List ℕ
connections = 0 ∷ 1 ∷ 2 ∷ 3 ∷ 4 ∷ 5 ∷ 6 ∷ 7 ∷ 8 ∷ 9 ∷ []

abbrev pub create : SqlConnectionPool
create = record { pool = connections; held = [] }

-- `none` is `front` of an empty queue, which is undefined.
unfoldable pub get_connection : List ℕ → Option (ℕ × List ℕ)
get_connection [] = none
get_connection (c ∷ cs) = some (c, cs)

unfoldable pub release_connections : ℕ → List ℕ → List ℕ
release_connections c cs = cs ++ (c ∷ [])

abbrev pub with_connection : List ℕ → Option (ℕ × List ℕ) → Option SqlConnectionPool
with_connection held none = none
with_connection held (some (c, cs)) = some (record { pool = cs; held = held ++ (c ∷ []) })

-- The constructor of SqlConnRALL.
unfoldable pub acquire : SqlConnectionPool → Option SqlConnectionPool
unfolding get_connection
acquire p = with_connection p.held (get_connection p.pool)

-- The object with a number, and the others.
unfoldable pub take_out : ℕ → List ℕ → Option (ℕ × List ℕ)
take_out i [] = none
take_out zero (c ∷ cs) = some (c, cs)
take_out (suc i) (c ∷ cs) =
    let rest = take_out i cs in elim rest [ none ↦ none | some (d, ds) ↦ some (d, c ∷ ds) ]

-- The destructor of SqlConnRALL; there is none to call where there is no object.
unfoldable pub destroy : ℕ → SqlConnectionPool → SqlConnectionPool
unfolding take_out release_connections
destroy i p = elim (take_out i p.held) [
  | none ↦ p
  | some (c, cs) ↦ record { pool = release_connections c p.pool; held = cs }
]

pub data Op : Type 0 where
  acquires : Op
  destroys : ℕ → Op

unfoldable pub step : Op → SqlConnectionPool → Option SqlConnectionPool
unfolding acquire destroy
step acquires p = acquire p
step (destroys i) p = some (destroy i p)

pub data Reached : SqlConnectionPool → Type 0 where
  first : Reached create
  next : {p q : SqlConnectionPool} (op : Op) → Reached p → step op p ≡ some q → Reached q
