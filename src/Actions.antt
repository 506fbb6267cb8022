-- ===== src/Actions.antt =====
-- A handler as a function of the state: it returns, an exception leaves it, or the process crashes on a
-- null pointer. What it did to the state before an exception stays done.
use ix_library.Base.{◌≡◌, refl, ap, ◌∙◌, Bool, true, false, Option, none, some, if◌then◌else◌}

pub data Result (A : Type 0) : Type 0 where
  ok : A → Result A
  thrown : Result A
  crashed : Result A

abbrev pub Action : Type 0 → Type 0 → Type 0
Action S A = S → Result A × S

abbrev pub Done : Type 0
Done = Unit {0}

module _ {S : Type 0} where
  infixl 5 ◌>>=◌ ◌>>◌
  go_on : {A B : Type 0} → (A → Action S B) → Result A × S → Result B × S
  go_on f (ok a, t) = f a t
  go_on f (thrown, t) = (thrown, t)
  go_on f (crashed, t) = (crashed, t)

  unfoldable pub ◌>>=◌ : {A B : Type 0} → Action S A → (A → Action S B) → Action S B
  unfolding go_on
  ◌>>=◌ m f s = go_on f (m s)

  abbrev pub ◌>>◌ : {A B : Type 0} → Action S A → Action S B → Action S B
  m >> k = m >>= λ _. k

  abbrev pub return : {A : Type 0} → A → Action S A
  return a s = (ok a, s)

  abbrev pub throw : {A : Type 0} → Action S A
  throw s = (thrown, s)

  abbrev pub crash : {A : Type 0} → Action S A
  crash s = (crashed, s)

  abbrev pub gets : {A : Type 0} → (S → A) → Action S A
  gets f s = (ok (f s), s)

  abbrev pub change : (S → S) → Action S Done
  change f s = (ok tt, f s)

  -- A conversion that throws.
  abbrev pub need : {A : Type 0} → Option A → Action S A
  need none = throw
  need (some a) = return a

  caught : Result Done × S → Result Done × S
  caught (ok a, t) = (ok tt, t)
  caught (thrown, t) = (ok tt, t)
  caught (crashed, t) = (crashed, t)

  -- `try { … } catch (const exception& e)`, whose handler prints.
  unfoldable pub attempt : Action S Done → Action S Done
  unfolding caught
  attempt m s = caught (m s)

  abbrev pub when : Bool → Action S Done → Action S Done
  when b m = if b then m else return tt

  -- How a run goes on: after a step that returns, one that throws, and one that crashes.
  pub then_ok :
      {A B : Type 0} (m : Action S A) (f : A → Action S B) {s t : S} {a : A} {r : Result B × S}
      → m s ≡ (ok a, t)
      → f a t ≡ r
      → (m >>= f) s ≡ r
  unfolding ◌>>=◌ go_on
  then_ok m f e q = ap (go_on f) e ∙ q

  pub then_thrown :
      {A B : Type 0} (m : Action S A) (f : A → Action S B) {s t : S}
      → m s ≡ (thrown, t)
      → (m >>= f) s ≡ (thrown, t)
  unfolding ◌>>=◌ go_on
  then_thrown m f e = ap (go_on f) e

  pub then_crashed :
      {A B : Type 0} (m : Action S A) (f : A → Action S B) {s t : S}
      → m s ≡ (crashed, t)
      → (m >>= f) s ≡ (crashed, t)
  unfolding ◌>>=◌ go_on
  then_crashed m f e = ap (go_on f) e

  pub need-some : {A : Type 0} {o : Option A} {a : A} {s : S} → o ≡ some a → need o s ≡ (ok a, s)
  need-some e = rw e refl

  pub attempt_ok : (m : Action S Done) {s t : S} → m s ≡ (ok tt, t) → attempt m s ≡ (ok tt, t)
  unfolding attempt caught
  attempt_ok m e = ap caught e

  pub attempt_thrown : (m : Action S Done) {s t : S} → m s ≡ (thrown, t) → attempt m s ≡ (ok tt, t)
  unfolding attempt caught
  attempt_thrown m e = ap caught e

  pub attempt_crashed :
      (m : Action S Done) {s t : S} → m s ≡ (crashed, t) → attempt m s ≡ (crashed, t)
  unfolding attempt caught
  attempt_crashed m e = ap caught e

  -- A property of the state that holds after a run, unless the process crashed.
  abbrev pub Holds : {A : Type 0} → (S → Type 0) → Result A × S → Type 0
  Holds P (ok a, t) = P t
  Holds P (thrown, t) = P t
  Holds P (crashed, t) = Unit

  -- An action that keeps a property of the state.
  abbrev pub Keeps : {A : Type 0} → (S → Type 0) → Action S A → Type 0
  Keeps P m = (s : S) → P s → Holds P (m s)

  go_on-Keeps :
      {A B : Type 0} (P : S → Type 0) (f : A → Action S B) (r : Result A × S)
      → ((a : A) → Keeps P (f a))
      → Holds P r
      → Holds P (go_on f r)
  unfolding go_on
  go_on-Keeps P f (ok a, t) g h = g a t h
  go_on-Keeps P f (thrown, t) g h = h
  go_on-Keeps P f (crashed, t) g h = tt

  pub bind-Keeps :
      {A B : Type 0} (P : S → Type 0) (m : Action S A) (f : A → Action S B)
      → Keeps P m
      → ((a : A) → Keeps P (f a))
      → Keeps P (m >>= f)
  unfolding ◌>>=◌
  bind-Keeps P m f k g s h = go_on-Keeps P f (m s) g (k s h)

  pub need-Keeps : {A : Type 0} (P : S → Type 0) (o : Option A) → Keeps P (need o)
  need-Keeps P none s h = h
  need-Keeps P (some a) s h = h

  pub when-Keeps : (P : S → Type 0) (b : Bool) (m : Action S Done) → Keeps P m → Keeps P (when b m)
  when-Keeps P false m k s h = h
  when-Keeps P true m k s h = k s h

  pub when-true :
      {b : Bool} (m : Action S Done) {s : S} {r : Result Done × S}
      → b ≡ true
      → m s ≡ r
      → when b m s ≡ r
  when-true m e q = rw e q

  pub when-false : {b : Bool} (m : Action S Done) {s : S} → b ≡ false → when b m s ≡ (ok tt, s)
  when-false m e = rw e refl
