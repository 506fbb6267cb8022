-- ===== src/Wire/Laws.antt =====
-- What the receiver reads from the first twenty bytes is what the sender put there.
use ix_library.Base.{ℕ, ◌+◌, ◌*◌, ◌/◌, ◌%◌, ◌<◌, ◌≡◌, refl, [], ◌∷◌, ◌++◌, length, arith}
use ix_library.Wire.{
  Bytes, Agreement, htonl, handle_htonl, handle_ntohl, store_word, load_word, store, load,
  header_size,
}

abbrev pub IsWord : ℕ → Type 0
IsWord x = x < 4294967296

-- Every field fits its `uint32_t`.
pub record IsPacked (a : Agreement) : Type 0 where
  pub message_id_in : IsWord a.message_id
  pub fragment_id_in : IsWord a.fragment_id
  pub this_size_in : IsWord a.this_size
  pub fragments_count_in : IsWord a.fragments_count
  pub json_size_in : IsWord a.json_size

digits :
    (a b c d : ℕ)
    → a < 256
    → b < 256
    → c < 256
    → d < 256
    → let x = a * 16777216 + b * 65536 + c * 256 + d in
      (x % 256 ≡ d) × (x / 256 % 256 ≡ c) × (x / 65536 % 256 ≡ b) × (x / 16777216 % 256 ≡ a)
digits a b c d ha hb hc hd = omega arith

sum_of_digits :
    (x : ℕ)
    → IsWord x
    → x % 256 + x / 256 % 256 * 256 + x / 65536 % 256 * 65536 + x / 16777216 % 256 * 16777216 ≡ x
sum_of_digits x h = omega arith

pub load_word-store_word : (x : ℕ) (rest : Bytes) → IsWord x → load_word (store_word x ++ rest) ≡ x
unfolding load_word store_word
load_word-store_word x rest h = sum_of_digits x h

pub htonl-htonl : (x : ℕ) → IsWord x → htonl (htonl x) ≡ x
unfolding htonl
htonl-htonl x h = omega (
  arith,
  digits (x % 256) (x / 256 % 256) (x / 65536 % 256) (x / 16777216 % 256) (omega arith)
      (omega arith) (omega arith) (omega arith),
  sum_of_digits x h,
)

pub htonl-IsWord : (x : ℕ) → IsWord (htonl x)
unfolding htonl
htonl-IsWord x = omega arith

-- What follows the header does not matter to `load`.
pub load-store : (a : Agreement) (rest : Bytes) → IsPacked a → load (store a ++ rest) ≡ a
unfolding load store store_word load_word
load-store a rest p =
    let m = sum_of_digits a.message_id p.message_id_in in
    let f = sum_of_digits a.fragment_id p.fragment_id_in in
    let t = sum_of_digits a.this_size p.this_size_in in
    let c = sum_of_digits a.fragments_count p.fragments_count_in in
    let j = sum_of_digits a.json_size p.json_size_in in
    λ i. record {
      message_id = m i;
      fragment_id = f i;
      this_size = t i;
      fragments_count = c i;
      json_size = j i;
    }

pub length-store : (a : Agreement) → length (store a) ≡ header_size
unfolding store store_word
length-store a = refl

pub handle_htonl-IsPacked : (a : Agreement) → IsPacked (handle_htonl a)
unfolding handle_htonl
handle_htonl-IsPacked a = record {
  message_id_in = htonl-IsWord a.message_id;
  fragment_id_in = htonl-IsWord a.fragment_id;
  this_size_in = htonl-IsWord a.this_size;
  fragments_count_in = htonl-IsWord a.fragments_count;
  json_size_in = htonl-IsWord a.json_size;
}

ntohl-htonl : (a : Agreement) → IsPacked a → handle_ntohl (handle_htonl a) ≡ a
unfolding handle_htonl handle_ntohl
ntohl-htonl a p = λ i. record {
  message_id = htonl-htonl a.message_id p.message_id_in i;
  fragment_id = htonl-htonl a.fragment_id p.fragment_id_in i;
  this_size = htonl-htonl a.this_size p.this_size_in i;
  fragments_count = htonl-htonl a.fragments_count p.fragments_count_in i;
  json_size = htonl-htonl a.json_size p.json_size_in i;
}

-- A header whose fields fit their words survives the trip: the sender's `handle_htonl` and copy
-- out of memory, then the receiver's copy into memory and `handle_ntohl`, whatever bytes follow.
pub header_round_trip :
    (a : Agreement) (rest : Bytes)
    → IsPacked a
    → handle_ntohl (load (store (handle_htonl a) ++ rest)) ≡ a
header_round_trip a rest p =
    rw (load-store (handle_htonl a) rest (handle_htonl-IsPacked a)) (ntohl-htonl a p)

-- The header is in network order: the first byte sent is the most significant one.
pub store-htonl :
    (x : ℕ)
    → IsWord x
    → store_word (htonl x)
      ≡ (x / 16777216 % 256) ∷ (x / 65536 % 256) ∷ (x / 256 % 256) ∷ (x % 256) ∷ []
unfolding htonl store_word
store-htonl x h =
    let d =
      digits (x % 256) (x / 256 % 256) (x / 65536 % 256) (x / 16777216 % 256) (omega arith)
        (omega arith) (omega arith) (omega arith) in
    λ i. d.0 i ∷ d.1 i ∷ d.2 i ∷ d.3 i ∷ []
