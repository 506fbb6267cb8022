-- ===== src/Socket/Packets/Parts.antt =====
-- The map of a message's parts, when they are numbered without a gap.
use ix_library.Base.{
  ℕ, suc, ◌+◌, ◌<◌, ◌≡◌, refl, ap, sym, ◌∙◌, some, List, [], ◌∷◌, ◌++◌, length, ◌==◌, arith, le→ltb,
  eq→==, ne→==, append-nil, append_assoc, true, false, Bool-cases, ◌⊎◌, inl, inr,
}
use ix_library.Wire.{Bytes}
use ix_library.Session.Stream.{concat}
use ix_library.Session.Fragments.{number}
use ix_library.Socket.Packets.{word, assign, DataStore, DataStores, store_of, put, merge_from}

pub assign-number :
    (m k : ℕ) (ds : List Bytes) (d : Bytes)
    → m ≡ k + length ds
    → assign m d (number k ds) ≡ number k (ds ++ (d ∷ []))
unfolding assign
assign-number m k [] d h = ap (λ n. (n, d) ∷ []) (omega arith)
assign-number m k (e ∷ ds) d h =
    rw (ne→== k m (λ q. omega arith), le→ltb m k (omega arith))
      (ap (◌∷◌ (k, e)) (assign-number m (k + 1) ds d (omega arith)))

pub length-number : (k : ℕ) (ds : List Bytes) → length (number k ds) ≡ length ds
length-number k [] = refl
length-number k (d ∷ ds) = ap suc (length-number (k + 1) ds)

pub merge_from-number :
    (k : ℕ) (bound : Bytes) (ds : List Bytes)
    → k + length ds < 4294967296
    → merge_from k bound (number k ds) ≡ some (bound ++ concat ds)
unfolding merge_from
merge_from-number k bound [] h = ap some (sym (append-nil bound))
merge_from-number k bound (d ∷ ds) h =
    let next : word (k + 1) ≡ k + 1 = omega arith in
    rw (eq→== k k refl, next)
      (merge_from-number (k + 1) (bound ++ d) ds (omega arith)
        ∙ ap some (append_assoc bound d (concat ds)))

pub concat-append : (ds : List Bytes) (d : Bytes) → concat (ds ++ (d ∷ [])) ≡ concat ds ++ d
concat-append [] d = append-nil d
concat-append (e ∷ ds) d =
    ap (λ r. e ++ r) (concat-append ds d) ∙ sym (append_assoc e (concat ds) d)

pub store_of-put : (k js : ℕ) (v : DataStore) (s : DataStores) → store_of k js (put k v s) ≡ v
unfolding store_of put
store_of-put k js v [] = rw (eq→== k k refl) refl
store_of-put k js v ((j, d) ∷ s) = by_key (store_of-put k js v s) (Bool-cases (j == k))
  where
    by_key :
        store_of k js (put k v s) ≡ v
        → (j == k ≡ true) ⊎ (j == k ≡ false)
        → store_of k js (put k v ((j, d) ∷ s)) ≡ v
    by_key rest (inl e) = rw (e, eq→== k k refl) refl
    by_key rest (inr e) = rw (e, e) rest
