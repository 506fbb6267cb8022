-- ===== src/Wire.antt =====
-- The packet header `S2C_agreement` of projects/Server/src/Session/Session.h, and the conversions
-- `handle_htonl` (tcp_service.cpp) and `handle_ntohl` (Session.cpp) between host and network order.
-- A `char` is its value as an unsigned byte; the host is little-endian.
pub mod Laws
use ix_library.Base.{ℕ, ◌+◌, ◌*◌, ◌/◌, ◌%◌, List, [], ◌∷◌, ◌++◌, get_or, drop}

abbrev pub Bytes : Type 0
Bytes = List ℕ

pub record Agreement : Type 0 where
  pub message_id : ℕ
  pub fragment_id : ℕ
  pub this_size : ℕ
  pub fragments_count : ℕ
  pub json_size : ℕ

-- `sizeof(S2C_agreement)`: five packed words.
abbrev pub header_size : ℕ
header_size = 20

-- `htonl` and `ntohl`, which are the same exchange of bytes.
unfoldable pub htonl : ℕ → ℕ
htonl x = x % 256 * 16777216 + x / 256 % 256 * 65536 + x / 65536 % 256 * 256 + x / 16777216 % 256

unfoldable pub handle_htonl : Agreement → Agreement
handle_htonl a = record {
  message_id = htonl a.message_id;
  fragment_id = htonl a.fragment_id;
  this_size = htonl a.this_size;
  fragments_count = htonl a.fragments_count;
  json_size = htonl a.json_size;
}

unfoldable pub handle_ntohl : Agreement → Agreement
handle_ntohl a = record {
  message_id = htonl a.message_id;
  fragment_id = htonl a.fragment_id;
  this_size = htonl a.this_size;
  fragments_count = htonl a.fragments_count;
  json_size = htonl a.json_size;
}

-- The four bytes of a word in memory, and the word that four bytes in memory hold.
unfoldable pub store_word : ℕ → Bytes
store_word x = (x % 256) ∷ (x / 256 % 256) ∷ (x / 65536 % 256) ∷ (x / 16777216 % 256) ∷ []

unfoldable pub load_word : Bytes → ℕ
load_word bs =
    get_or bs 0 0 + get_or bs 1 0 * 256 + get_or bs 2 0 * 65536 + get_or bs 3 0 * 16777216

-- `reinterpret_cast<const char*>(&htonl_agreement)` read over `headerSize` bytes.
unfoldable pub store : Agreement → Bytes
store a =
    store_word a.message_id
    ++ (store_word a.fragment_id
        ++ (store_word a.this_size ++ (store_word a.fragments_count ++ store_word a.json_size)))

-- `memcpy(&s2c, recvBuffer.data(), headerSize)`.
unfoldable pub load : Bytes → Agreement
load bs = record {
  message_id = load_word bs;
  fragment_id = load_word (drop 4 bs);
  this_size = load_word (drop 8 bs);
  fragments_count = load_word (drop 12 bs);
  json_size = load_word (drop 16 bs);
}
