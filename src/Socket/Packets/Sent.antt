-- ===== src/Socket/Packets/Sent.antt =====
-- What `queueSend_new` writes: the bytes cut every 1004, each piece with its number and size.
use ix_library.Base.{
  ℕ, zero, suc, ◌+◌, ◌-◌, ◌*◌, ◌<◌, ◌≤◌, ◌≡◌, refl, ap, sym, subst, ◌∙◌, List, [], ◌∷◌, ◌++◌,
  length, take, drop, ◌==◌, if◌then◌else◌, min, arith, length-take, length-drop, lt→ltb, le→ltb,
  eq→==, ne→==, append_assoc,
}
use ix_library.Wire.{Bytes}
use ix_library.Socket.Packets.{S2CAgreement, to_memory, word, send_loop, Delivery}

-- The bytes cut every 1004.
abbrev pub chunks : ℕ → Bytes → List Bytes
chunks zero xs = []
chunks (suc n) [] = []
chunks (suc n) (x ∷ xs) = take 1004 (x ∷ xs) ∷ chunks n (drop 1004 (x ∷ xs))

-- The header of part `k`, of message `id` in `n` packets with a header of `js` bytes.
abbrev pub part_of : ℕ → ℕ → ℕ → ℕ → ℕ → S2CAgreement
part_of id n js k size = record {
  id = id;
  sub_packet_id = k;
  residual_byte = size;
  total_packet_count = n;
  json_size = js;
}

-- The parts as packets numbered from `k`.
abbrev pub packets : ℕ → ℕ → ℕ → ℕ → List Bytes → List Bytes
packets id n js k [] = []
packets id n js k (d ∷ ds) =
    (to_memory (part_of id n js k (length d)) ++ d) ∷ packets id n js (k + 1) ds

-- What the count `n` makes of parts that come after `before`: the message is handed on when its
-- `n`-th part is there, and not again.
abbrev pub announced : ℕ → ℕ → Bytes → ℕ → List Bytes → List Delivery
announced js n before k [] = []
announced js n before k (d ∷ ds) =
    let rest = announced js n (before ++ d) (k + 1) ds in
    if (k + 1) == n then (record { json_size = js; whole = before ++ d }) ∷ rest else rest

take-nil : (a : ℕ) → take {A = ℕ} a [] ≡ []
take-nil zero = refl
take-nil (suc a) = refl

drop-nil : (a : ℕ) → drop {A = ℕ} a [] ≡ []
drop-nil zero = refl
drop-nil (suc a) = refl

suc-add : (a b : ℕ) → suc a + b ≡ suc (a + b)
suc-add a b = omega arith

take-add : (a b : ℕ) (xs : Bytes) → take (a + b) xs ≡ take a xs ++ take b (drop a xs)
take-add zero b xs = ap (λ n. take n xs) (omega arith)
take-add (suc a) b [] = take-nil (suc a + b) ∙ sym (take-nil b)
take-add (suc a) b (x ∷ xs) = rw (suc-add a b) (ap (◌∷◌ x) (take-add a b xs))

drop-drop : (a b : ℕ) (xs : Bytes) → drop b (drop a xs) ≡ drop (a + b) xs
drop-drop zero b xs = ap (λ n. drop n xs) (omega arith)
drop-drop (suc a) b [] = drop-nil b ∙ sym (drop-nil (suc a + b))
drop-drop (suc a) b (x ∷ xs) = rw (suc-add a b) (drop-drop a b xs)

min-suc : (a b : ℕ) → min (suc a) (suc b) ≡ suc (min a b)
min-suc a b = omega arith

min-zero : (b : ℕ) → min 0 b ≡ 0
min-zero b = omega arith

-- A cut beyond the end takes all.
take-min : (a : ℕ) (xs : Bytes) → take (min a (length xs)) xs ≡ take a xs
take-min a [] = take-nil (min a 0) ∙ sym (take-nil a)
take-min zero (x ∷ xs) = rw (min-zero (suc (length xs))) refl
take-min (suc a) (x ∷ xs) = rw (min-suc a (length xs)) (ap (◌∷◌ x) (take-min a xs))

drop-min : (a : ℕ) (xs : Bytes) → drop (min a (length xs)) xs ≡ drop a xs
drop-min a [] = drop-nil (min a 0) ∙ sym (drop-nil a)
drop-min zero (x ∷ xs) = rw (min-zero (suc (length xs))) refl
drop-min (suc a) (x ∷ xs) = rw (min-suc a (length xs)) (drop-min a xs)

announced-later :
    (js n : ℕ) (before : Bytes) (k : ℕ) (ds : List Bytes) → n ≤ k → announced js n before k ds ≡ []
announced-later js n before k [] h = refl
announced-later js n before k (d ∷ ds) h =
    rw (ne→== (k + 1) n (λ e. omega arith))
      (announced-later js n (before ++ d) (k + 1) ds (omega arith))

-- `i + 1` more parts are asked for and there are as many: what is handed on is cut after them.
pub announced-chunks :
    (js i f : ℕ) (before : Bytes) (k : ℕ) (xs : Bytes)
    → 1004 * i < length xs
    → length xs ≤ f
    → announced js (k + 1 + i) before k (chunks f xs)
      ≡ (record { json_size = js; whole = before ++ take (1004 * (i + 1)) xs }) ∷ []
announced-chunks js i zero before k xs h g = absurd (omega arith)
announced-chunks js i (suc f) before k [] h g = absurd (omega arith)
announced-chunks js zero (suc f) before k (x ∷ xs) h g =
    let later =
      announced-later js (k + 1 + 0) (before ++ take 1004 (x ∷ xs)) (k + 1)
        (chunks f (drop 1004 (x ∷ xs))) (omega arith) in
    rw (eq→== (k + 1) (k + 1 + 0) (omega arith))
      (ap (◌∷◌ (record { json_size = js; whole = before ++ take 1004 (x ∷ xs) })) later)
announced-chunks js (suc i) (suc f) before k (x ∷ xs) h g =
    let cut = take 1004 (x ∷ xs) in
    let rest = drop 1004 (x ∷ xs) in
    let ih =
      announced-chunks js i f (before ++ cut) (k + 1) rest
        (omega (arith, length-drop 1004 (x ∷ xs))) (omega (arith, length-drop 1004 (x ∷ xs))) in
    let size : 1004 * (suc i + 1) ≡ 1004 + 1004 * (i + 1) = omega arith in
    let shift : k + 1 + suc i ≡ k + 1 + 1 + i = omega arith in
    let same : before ++ take (1004 * (suc i + 1)) (x ∷ xs)
        ≡ (before ++ cut) ++ take (1004 * (i + 1)) rest =
      ap (λ n. before ++ take n (x ∷ xs)) size
      ∙ ap (λ r. before ++ r) (take-add 1004 (1004 * (i + 1)) (x ∷ xs))
      ∙ sym (append_assoc before cut (take (1004 * (i + 1)) rest)) in
    let moved =
      subst
        (λ n.
          announced js n (before ++ cut) (k + 1) (chunks f rest)
          ≡ (record { json_size = js; whole = (before ++ cut) ++ take (1004 * (i + 1)) rest }) ∷ [])
        (sym shift) ih in
    rw (ne→== (k + 1) (k + 1 + suc i) (λ e. omega arith), same) moved

pub send_loop-packets :
    (n : ℕ) (h : S2CAgreement) (len : ℕ) (total xs : Bytes)
    → drop len total ≡ xs
    → length xs ≤ n
    → h.sub_packet_id + n < 4294967296
    → send_loop n h len total
      ≡ packets h.id h.total_packet_count h.json_size h.sub_packet_id (chunks n xs)
unfolding send_loop
send_loop-packets zero h len total xs e g w = refl
send_loop-packets (suc n) h len total [] e g w =
    let none_left : length (drop len total) ≡ 0 = ap length e in
    rw (le→ltb len (length total) (omega (arith, length-drop len total))) refl
send_loop-packets (suc n) h len total (x ∷ xs) e g w =
    let cut = take 1004 (x ∷ xs) in
    let left : length total - len ≡ length (x ∷ xs) = sym (length-drop len total) ∙ ap length e in
    let size : word (min 1004 (length total - len)) ≡ length cut =
      omega (arith, length-take 1004 (x ∷ xs), left) in
    let body : take (min 1004 (length total - len)) (drop len total) ≡ cut =
      rw (left, e) (take-min 1004 (x ∷ xs)) in
    let beyond : drop (len + min 1004 (length total - len)) total ≡ drop 1004 (x ∷ xs) =
      sym (drop-drop len (min 1004 (length total - len)) total)
      ∙ rw (left, e) (drop-min 1004 (x ∷ xs)) in
    let next : S2CAgreement = record h {
      sub_packet_id = word (h.sub_packet_id + 1);
      residual_byte = word (min 1004 (length total - len));
    } in
    let one_more : word (h.sub_packet_id + 1) ≡ h.sub_packet_id + 1 = omega arith in
    let ih =
      send_loop-packets n next (len + min 1004 (length total - len)) total (drop 1004 (x ∷ xs))
        beyond (omega (arith, length-drop 1004 (x ∷ xs))) (omega arith) in
    let tail =
      ih
      ∙ ap (λ k. packets h.id h.total_packet_count h.json_size k (chunks n (drop 1004 (x ∷ xs))))
          one_more in
    rw (lt→ltb len (length total) (omega arith)) (λ i.
      (to_memory (part_of h.id h.total_packet_count h.json_size h.sub_packet_id (size i)) ++ body i)
      ∷ tail i)
