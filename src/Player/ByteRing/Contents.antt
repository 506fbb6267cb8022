-- ===== src/Player/ByteRing/Contents.antt =====
-- What a reader would find in a `RingBuffer_size_t`: the places from `head_` on, in their order.
use ix_library.Base.{
  ℕ, zero, suc, ◌+◌, ◌-◌, ◌%◌, ◌≤◌, ◌<◌, ◌≡◌, ◌≢◌, refl, ap, sym, ◌∙◌, Bool-cases, inl, inr, List,
  [], ◌∷◌, ◌++◌, append_assoc, append-nil, length, take, get_or, set, ltb, ltb→lt, ltb→le,
  if◌then◌else◌, arith,
}
use native.Mathlib.Nat.{mod-eq_of_lt, mod_self, mod-eq-sub-mod}
use ix_library.Player.ByteRing.{ByteRing, copy_out, copy_in}

pub length-set : (xs : List ℕ) (i v : ℕ) → length (set xs i v) ≡ length xs
length-set [] i v = refl
length-set (x ∷ xs) zero v = refl
length-set (x ∷ xs) (suc i) v = ap suc (length-set xs i v)

get_or-set : (xs : List ℕ) (i v : ℕ) → i < length xs → get_or (set xs i v) i 0 ≡ v
get_or-set [] i v h = absurd (omega arith)
get_or-set (x ∷ xs) zero v h = refl
get_or-set (x ∷ xs) (suc i) v h = get_or-set xs i v (omega arith)

get_or-set_other : (xs : List ℕ) (i j v : ℕ) → i ≢ j → get_or (set xs i v) j 0 ≡ get_or xs j 0
get_or-set_other [] i j v d = refl
get_or-set_other (x ∷ xs) zero zero v d = absurd (d refl)
get_or-set_other (x ∷ xs) zero (suc j) v d = refl
get_or-set_other (x ∷ xs) (suc i) zero v d = refl
get_or-set_other (x ∷ xs) (suc i) (suc j) v d = get_or-set_other xs i j v (λ e. d (ap suc e))

-- The place `i` steps after `h`.
abbrev pub place : ℕ → ℕ → ℕ → ℕ
place n h i = if ltb (h + i) n then h + i else h + i - n

place_next : (n x : ℕ) → x < n → (x + 1) % n ≡ (if ltb (x + 1) n then x + 1 else 0)
place_next n x h = elim (Bool-cases (ltb (x + 1) n)) [
  | inl e ↦ mod-eq_of_lt (ltb→lt (x + 1) n e) ∙ rw e refl
  | inr e ↦
      ap (λ k. k % n) {x = x + 1} {y = n} (omega (arith, ltb→le (x + 1) n e))
      ∙ mod_self n
      ∙ rw e refl
]

place-suc : (n h i : ℕ) → h < n → i < n → (place n h i + 1) % n ≡ place n h (i + 1)
place-suc n h i a b = place_next n (place n h i) (ground arith) ∙ ground arith

pub place-mod : (n h i : ℕ) → h < n → i ≤ n → (h + i) % n ≡ place n h i
place-mod n h i a b = elim (Bool-cases (ltb (h + i) n)) [
  | inl e ↦ mod-eq_of_lt (ltb→lt (h + i) n e) ∙ rw e refl
  | inr e ↦
      mod-eq-sub-mod (ltb→le (h + i) n e)
      ∙ mod-eq_of_lt (omega (arith, ltb→le (h + i) n e))
      ∙ rw e refl
]

place_apart : (n h i k : ℕ) → h < n → i < k → k < n → place n h k ≢ place n h i
place_apart n h i k a b c e = ground (arith, e)

-- The `n` bytes that lie `i` and more places after `h`.
abbrev pub items : List ℕ → ℕ → ℕ → ℕ → List ℕ
items buf h i zero = []
items buf h i (suc n) = get_or buf (place (length buf) h i) 0 ∷ items buf h (i + 1) n

pub copy_out-items :
    (n i h : ℕ) (r : ByteRing)
    → h < length r.buf
    → i + n ≤ length r.buf
    → r.head ≡ place (length r.buf) h i
    → (copy_out n r).0 ≡ items r.buf h i n
unfolding copy_out
copy_out-items zero i h r a b e = refl
copy_out-items (suc n) i h r a b e =
    ap (λ k. get_or r.buf k 0 ∷ (copy_out n (record r { head = (r.head + 1) % length r.buf })).0) e
    ∙ ap (λ l. get_or r.buf (place (length r.buf) h i) 0 ∷ l)
        (copy_out-items n (i + 1) h (record r { head = (r.head + 1) % length r.buf }) a
          (omega arith)
          (ap (λ k. (k + 1) % length r.buf) e ∙ place-suc (length r.buf) h i a (omega arith)))

items-last :
    (buf : List ℕ) (h i n : ℕ)
    → items buf h i (n + 1) ≡ items buf h i n ++ (get_or buf (place (length buf) h (i + n)) 0 ∷ [])
items-last buf h i zero = ap (λ k. get_or buf (place (length buf) h k) 0 ∷ []) (omega arith)
items-last buf h i (suc n) =
    ap (items buf h i) {x = suc n + 1} {y = suc (n + 1)} (omega arith)
    ∙ ap (λ l. get_or buf (place (length buf) h i) 0 ∷ l)
        (items-last buf h (i + 1) n
          ∙ ap (λ k. items buf h (i + 1) n ++ (get_or buf (place (length buf) h k) 0 ∷ []))
              {x = i + 1 + n} {y = i + suc n} (omega arith))

items-set :
    (buf : List ℕ) (h i n k v : ℕ)
    → h < length buf
    → i + n ≤ k
    → k < length buf
    → items (set buf (place (length buf) h k) v) h i n ≡ items buf h i n
items-set buf h i zero k v a b c = refl
items-set buf h i (suc n) k v a b c =
    ap
      (λ m.
        get_or (set buf (place (length buf) h k) v) (place m h i) 0
        ∷ items (set buf (place (length buf) h k) v) h (i + 1) n)
      (length-set buf (place (length buf) h k) v)
    ∙ ap (λ x. x ∷ items (set buf (place (length buf) h k) v) h (i + 1) n)
        (get_or-set_other buf (place (length buf) h k) (place (length buf) h i) v
          (place_apart (length buf) h i k a (omega arith) c))
    ∙ ap (λ l. get_or buf (place (length buf) h i) 0 ∷ l)
        (items-set buf h (i + 1) n k v a (omega arith) c)

-- The `n` bytes of the input from `written` on.
abbrev pub given : List ℕ → ℕ → ℕ → List ℕ
given d written zero = []
given d written (suc n) = get_or d written 0 ∷ given d (written + 1) n

given-later : (x : ℕ) (d : List ℕ) (w n : ℕ) → given (x ∷ d) (w + 1) n ≡ given d w n
given-later x d w zero = refl
given-later x d w (suc n) =
    ap (λ k. get_or (x ∷ d) k 0 ∷ given (x ∷ d) (w + 1 + 1) n) {x = w + 1} {y = suc w} (omega arith)
    ∙ ap (λ l. get_or d w 0 ∷ l) (given-later x d (w + 1) n)

pub given-take : (n : ℕ) (d : List ℕ) → n ≤ length d → given d 0 n ≡ take n d
given-take zero d h = refl
given-take (suc n) [] h = absurd (omega arith)
given-take (suc n) (x ∷ d) h = ap (λ l. x ∷ l) (given-later x d 0 n ∙ given-take n d (omega arith))

-- One byte more at the tail.
put_last :
    (buf : List ℕ) (h size v : ℕ)
    → h < length buf
    → size < length buf
    → items (set buf (place (length buf) h size) v) h 0 (size + 1) ≡ items buf h 0 size ++ (v ∷ [])
put_last buf h size v a b =
    let t = place (length buf) h size in
    items-last (set buf t v) h 0 size
    ∙ ap (λ l. l ++ (get_or (set buf t v) (place (length (set buf t v)) h (0 + size)) 0 ∷ []))
        (items-set buf h 0 size size v a (omega arith) b)
    ∙ ap (λ m. items buf h 0 size ++ (get_or (set buf t v) (place m h (0 + size)) 0 ∷ []))
        (length-set buf t v)
    ∙ ap (λ x. items buf h 0 size ++ (x ∷ []))
        (ap (λ k. get_or (set buf t v) (place (length buf) h k) 0) {x = 0 + size} {y = size}
            (omega arith)
          ∙ get_or-set buf t v (ground arith))

pub copy_in-items :
    (n : ℕ) (d : List ℕ) (written h : ℕ) (r : ByteRing)
    → h < length r.buf
    → r.size_ + n ≤ length r.buf
    → r.tail ≡ place (length r.buf) h r.size_
    → items (copy_in n d written r).1.buf h 0 (copy_in n d written r).1.size_
      ≡ items r.buf h 0 r.size_ ++ given d written n
unfolding copy_in
copy_in-items zero d written h r a b e = sym (append-nil (items r.buf h 0 r.size_))
copy_in-items (suc n) d written h r a b e =
    let v = get_or d written 0 in
    let long = length-set r.buf r.tail v in
    copy_in-items n d (written + 1) h
      (record r {
        buf = set r.buf r.tail v;
        tail = (r.tail + 1) % length r.buf;
        size_ = r.size_ + 1;
      })
      (omega (arith, long)) (omega (arith, long))
      (ap (λ k. (k + 1) % length r.buf) e
        ∙ place-suc (length r.buf) h r.size_ a (omega arith)
        ∙ ap (λ m. place m h (r.size_ + 1)) (sym long))
    ∙ ap (λ l. l ++ given d (written + 1) n)
        (ap (λ t. items (set r.buf t v) h 0 (r.size_ + 1)) e
          ∙ put_last r.buf h r.size_ v a (omega arith))
    ∙ append_assoc (items r.buf h 0 r.size_) (v ∷ []) (given d (written + 1) n)

pub copy_in-head :
    (n : ℕ) (d : List ℕ) (written : ℕ) (r : ByteRing) → (copy_in n d written r).1.head ≡ r.head
unfolding copy_in
copy_in-head zero d written r = refl
copy_in-head (suc n) d written r = copy_in-head n d (written + 1) _
