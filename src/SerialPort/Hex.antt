-- ===== src/SerialPort/Hex.antt =====
-- projects/SerialPort/src/utils.cpp, and the view of what came in: bytes shown as hex digits and read
-- back.
use ix_library.Base.{
  ℕ, ◌/◌, ◌%◌, ◌<◌, ◌≡◌, refl, ap, sym, subst, ◌∙◌, Bool, true, false, none, some, [], ◌∷◌, ◌++◌,
  append_assoc, append-nil, map, if◌then◌else◌, ◌==◌, ◌&&◌, Bool-cases, inl, inr, utf8, same, arith,
}
use ix_library.Wire.{Bytes}
use ix_library.SerialPort.{Qt, IsQt, contains, digit, IsBelow, Widget}

-- The loop of `toHex`, which takes two digits at a time and puts a space after them.
unfoldable pub spaced : Bytes → Bytes
spaced [] = []
spaced (a ∷ []) = a ∷ 32 ∷ []
spaced (a ∷ b ∷ r) = a ∷ b ∷ 32 ∷ spaced r

module _ (qt : Qt) where
  -- `toHex`: the argument itself becomes the digits.
  unfoldable pub to_hex : Bytes → Bytes
  unfolding spaced
  to_hex bytes = spaced (qt.to_hex bytes)

  unfoldable pub char_of : Bytes → ℕ
  char_of part =
      if same part (utf8 "0a") then 10 else elim (qt.to_int part) [ none ↦ 63 | some n ↦ n % 256 ]

  unfoldable pub to_ascii : Bytes → Bytes
  unfolding char_of
  to_ascii hex = qt.from_utf8 (map char_of (qt.split_skip 32 hex))

  -- `on_checkBox_HEXShow_stateChanged`.
  unfoldable pub hex_show_changed : Bool → Widget → Widget
  unfolding to_hex
  hex_show_changed checked w =
      let view = w.received in
      let shown =
        if checked
        then qt.to_upper (qt.from_utf8 (to_hex view))
        else qt.from_utf8 (qt.from_hex view) in
      record w { hex_show = checked; received = qt.set_text shown }

-- A digit is an ASCII character that is no space.
record IsDigit (c : ℕ) : Type 0 where
  ascii : c < 128
  solid : (c == 32) ≡ false

digit-IsDigit : (n : ℕ) → n < 16 → IsDigit (digit n)
digit-IsDigit n h = record { ascii = ground arith; solid = ground arith }

no_space : (a b : ℕ) → a < 16 → b < 16 → contains 32 (digit a ∷ digit b ∷ []) ≡ false
no_space a b ha hb = rw ((digit-IsDigit a ha).solid, (digit-IsDigit b hb).solid) refl

digit_zero : (n : ℕ) → n < 16 → (digit n == 48) ≡ true → n ≡ 0
digit_zero n h e = ground arith

digit_ten : (n : ℕ) → n < 16 → (digit n == 97) ≡ true → n ≡ 10
digit_ten n h e = ground arith

both : (a b : Bool) → a && b ≡ true → (a ≡ true) × (b ≡ true)
both a b e = ground arith

line_feed :
    (m n : ℕ)
    → m < 16
    → n < 16
    → same (digit m ∷ digit n ∷ []) (utf8 "0a") ≡ true
    → (m ≡ 0) × (n ≡ 10)
unfolding same utf8
line_feed m n hm hn e =
    let (x, y) = both (digit m == 48) _ e in
    let (z, u) = both (digit n == 97) _ y in (digit_zero m hm x, digit_ten n hn z)

-- What `char_of` makes of the digits of a byte, the line feed among them.
char_of-digits :
    (qt : Qt) (b : ℕ) → IsQt qt → b < 256 → char_of qt (digit (b / 16) ∷ digit (b % 16) ∷ []) ≡ b
unfolding char_of
char_of-digits qt b law h =
    elim (Bool-cases (same (digit (b / 16) ∷ digit (b % 16) ∷ []) (utf8 "0a"))) [
      | inl e ↦
          let (hi, lo) = line_feed (b / 16) (b % 16) (omega arith) (omega arith) e in
          rw e (omega (arith, hi, lo))
      | inr e ↦ rw (e, law.to_int_digits b h) (omega arith)
    ]

spaced-to_hex :
    (qt : Qt) (b : ℕ) (bs : Bytes)
    → IsQt qt
    → b < 256
    → spaced (qt.to_hex (b ∷ bs)) ≡ digit (b / 16) ∷ digit (b % 16) ∷ 32 ∷ spaced (qt.to_hex bs)
unfolding spaced
spaced-to_hex qt b bs law h = rw (law.to_hex_cons b bs h) refl

parts-spaced :
    (qt : Qt) (bs : Bytes)
    → IsQt qt
    → IsBelow 256 bs
    → map (char_of qt) (qt.split_skip 32 (spaced (qt.to_hex bs))) ≡ bs
unfolding spaced
parts-spaced qt [] law h = rw (law.to_hex_nil, law.split_skip_nil 32) refl
parts-spaced qt (b ∷ bs) law (h, hs) =
    let hi = digit (b / 16) in
    let lo = digit (b % 16) in
    let rest = spaced (qt.to_hex bs) in
    ap (λ t. map (char_of qt) (qt.split_skip 32 t)) (spaced-to_hex qt b bs law h)
    ∙ ap (map (char_of qt)) (
        law.split_skip_more 32 hi (lo ∷ []) rest
          (no_space (b / 16) (b % 16) (omega arith) (omega arith)))
    ∙ rw (char_of-digits qt b law h, parts-spaced qt bs law hs) refl

from_hex-spaced :
    (qt : Qt) (xs ys : Bytes) → IsQt qt → qt.from_hex (xs ++ spaced ys) ≡ qt.from_hex (xs ++ ys)
unfolding spaced
from_hex-spaced qt xs [] law = refl
from_hex-spaced qt xs (a ∷ []) law =
    ap qt.from_hex (sym (append_assoc xs (a ∷ []) (32 ∷ [])))
    ∙ law.from_hex_space (xs ++ (a ∷ [])) []
    ∙ ap qt.from_hex (append-nil (xs ++ (a ∷ [])))
from_hex-spaced qt xs (a ∷ b ∷ r) law =
    let seen = xs ++ (a ∷ b ∷ []) in
    ap qt.from_hex (sym (append_assoc xs (a ∷ b ∷ []) (32 ∷ spaced r)))
    ∙ law.from_hex_space seen (spaced r)
    ∙ from_hex-spaced qt seen r law
    ∙ ap qt.from_hex (append_assoc xs (a ∷ b ∷ []) r)

spaced-IsBelow :
    (qt : Qt) (bs : Bytes) → IsQt qt → IsBelow 256 bs → IsBelow 128 (spaced (qt.to_hex bs))
unfolding spaced
spaced-IsBelow qt [] law h = subst (λ t. IsBelow 128 (spaced t)) (sym law.to_hex_nil) tt
spaced-IsBelow qt (b ∷ bs) law (h, hs) = subst (IsBelow 128) (sym (spaced-to_hex qt b bs law h)) (
  (digit-IsDigit (b / 16) (omega arith)).ascii,
  ((digit-IsDigit (b % 16) (omega arith)).ascii, (omega arith, spaced-IsBelow qt bs law hs)),
)

-- For a text that stands in the view of what came in, which `setText` takes as it is, no markup, as it
-- takes its hex digits: `toAscii` of its `toHex` is the text again, its line feeds included, and the
-- view shows the text again when the hex box is checked and unchecked.
pub hex_shows_back :
    (qt : Qt) (w : Widget)
    → IsQt qt
    → IsBelow 256 w.received
    → qt.is_utf8 w.received ≡ true
    → qt.set_text w.received ≡ w.received
    → qt.set_text (qt.to_upper (qt.from_utf8 (to_hex qt w.received)))
      ≡ qt.to_upper (qt.from_utf8 (to_hex qt w.received))
    → (to_ascii qt (to_hex qt w.received) ≡ w.received)
      × (hex_show_changed qt false (hex_show_changed qt true w) ≡ record w { hex_show = false })
unfolding to_ascii to_hex hex_show_changed
hex_shows_back qt w law h u plain digits_plain = (
  ap qt.from_utf8 (parts-spaced qt w.received law h) ∙ law.utf8_back w.received u,
  ap (λ t. record w { hex_show = false; received = qt.set_text (qt.from_utf8 (qt.from_hex t)) })
        digits_plain
      ∙ ap (λ t. record w { hex_show = false; received = qt.set_text (qt.from_utf8 t) }) digits
      ∙ ap (λ t. record w { hex_show = false; received = qt.set_text t })
          (law.utf8_back w.received u)
      ∙ ap (λ t. record w { hex_show = false; received = t }) plain,
)
  where
    shown : Bytes
    shown = spaced (qt.to_hex w.received)

    digits : qt.from_hex (qt.to_upper (qt.from_utf8 shown)) ≡ w.received
    digits =
        let below = spaced-IsBelow qt w.received law h in
        ap (λ t. qt.from_hex (qt.to_upper t)) (law.ascii_back shown below)
        ∙ law.from_hex_upper shown below
        ∙ from_hex-spaced qt [] (qt.to_hex w.received) law
        ∙ law.from_hex_back w.received h
