-- ===== src/Tests/Keyed.antt =====
-- A json library over functions of a key, a database with one row, and a server with two sessions.
use ix_library.Base.{
  ℕ, ◌+◌, ◌≡◌, refl, sym, subst, Bool, true, false, Option, none, some, List, [], ◌∷◌,
  if◌then◌else◌, same, utf8, String,
}
use text.Mathlib.Text.{◌==◌}
use text.Mathlib.TextPositions.{eq_refl}
use ix_library.Wire.{Bytes}
use ix_library.Json.{Json, IsJson}
use ix_library.Server.{Database, Server, absent, held, no_info, at_id, find_user}

pub data Entry : Type 0 where
  nothing : Entry
  word : Bytes → Entry
  number : ℕ → Entry
  flag : Bool → Entry
  table : List (List Bytes) → Entry

abbrev pub text_of : Entry → Option Bytes
text_of nothing = none
text_of (word b) = some b
text_of (number n) = none
text_of (flag b) = none
text_of (table r) = none

abbrev pub number_of : Entry → Option ℕ
number_of nothing = none
number_of (word b) = none
number_of (number n) = some n
number_of (flag b) = none
number_of (table r) = none

abbrev pub flag_of : Entry → Option Bool
flag_of nothing = none
flag_of (word b) = none
flag_of (number n) = none
flag_of (flag b) = some b
flag_of (table r) = none

abbrev pub table_of : Entry → Option (List (List Bytes))
table_of nothing = none
table_of (word b) = none
table_of (number n) = none
table_of (flag b) = none
table_of (table r) = some r

abbrev pub is_there : Option Entry → Bool
is_there none = false
is_there (some e) = true

abbrev pub entry_of : Option Entry → Entry
entry_of none = nothing
entry_of (some e) = e

abbrev pub IsSome : Option Bytes → Type 0
IsSome none = ⊥
IsSome (some b) = Unit

none≢some : {b : Bytes} → ¬ (none ≡ some b)
none≢some e = subst IsSome (sym e) tt

text_or_of_text :
    (e : Option Entry) (b d : Bytes)
    → text_of (entry_of e) ≡ some b
    → elim e [ none ↦ some d | some x ↦ text_of x ] ≡ some b
text_or_of_text none b d e = elim (none≢some e) [ ]
text_or_of_text (some x) b d e = e

-- The two objects that an accepted login is answered with, as `keyed` has them.
abbrev pub without : String → (String → Option Entry) → String → Option Entry
without k o m = if m == k then none else o m

abbrev pub with_entry : String → Entry → (String → Option Entry) → String → Option Entry
with_entry k x o m = if m == k then some x else o m

abbrev pub login_of : Bytes → String → Option Entry
login_of password k =
    if k == "action"
    then some (word (utf8 "login"))
    else if k == "from_id"
    then some (number 1)
    else if k == "username"
    then some (word (utf8 "ann"))
    else if k == "password"
    then some (word password)
    else some (flag true)

abbrev pub rooms_to : ℕ → String → Option Entry
rooms_to to = without "to_id" (
    with_entry "room_names" (table []) (
      with_entry "to_id" (number to)
        (with_entry "action" (word (utf8 "rooms_receive")) (λ k. none))))

abbrev pub reply_to : ℕ → String → Option Entry
reply_to to = without "to_id" (
    with_entry "confirm" (flag true) (
      with_entry "nickname" (word (utf8 "Ann"))
        (with_entry "to_id" (number to) (without "from_id" (login_of (utf8 "pw"))))))

abbrev pub keyed : Json
keyed = record {
  Value = Entry;
  Object = String → Option Entry;
  empty = λ k. none;
  of_text = word;
  of_number = number;
  of_flag = flag;
  of_table = table;
  has = λ k o. is_there (o k);
  get = λ k o. entry_of (o k);
  put = with_entry;
  erase = without;
  as_text = text_of;
  as_number = number_of;
  as_flag = flag_of;
  as_table = table_of;
  text_or = λ k d o. elim (o k) [ none ↦ some d | some e ↦ text_of e ];
  table_or = λ k d o. if is_there (o k) then table_of (entry_of (o k)) else some d;
  number_or = λ k d o. if is_there (o k) then number_of (entry_of (o k)) else some d;
  number_or_negative = λ k o. some (number_of (entry_of (o k)));
  dump = λ o. if is_there (o "confirm") then 1 ∷ [] else 0 ∷ [];
  parse = λ b. if same b (0 ∷ []) then some (rooms_to 1) else some (reply_to 1);
}

pub keyed-IsJson : IsJson keyed
keyed-IsJson = record {
  get_put = λ k x o. rw (eq_refl k) refl;
  get_put_ne = λ k m x o e. rw e refl;
  get_erase_ne = λ k m o e. rw e refl;
  has_put = λ k x o. rw (eq_refl k) refl;
  has_put_ne = λ k m x o e. rw e refl;
  has_erase = λ k o. rw (eq_refl k) refl;
  has_erase_ne = λ k m o e. rw e refl;
  has_empty = λ k. refl;
  table_or_has = λ k d o e. rw e refl;
  number_or_missing = λ k d o e. rw e refl;
  text_or_text = λ k b d o e. text_or_of_text (o k) b d e;
  text_back = λ b. refl;
  number_back = λ n. refl;
  flag_back = λ b. refl;
  table_back = λ r. refl;
}

abbrev pub row : Bytes → Bytes
row column =
    if same column (utf8 "username")
    then utf8 "ann"
    else if same column (utf8 "password")
    then utf8 "pw"
    else utf8 "Ann"

-- Its store counts the statements.
abbrev pub one_row : Database
one_row = record { Store = ℕ; query = λ q d. some (row ∷ []); execute = λ q d. some (d + 1) }

abbrev pub quiet : Server ℕ
quiet = record {
  id_increment = 3;
  sessions =
      at_id 1 (held (record no_info { id = 1 }))
        (at_id 2 (held (record no_info { id = 2 })) (λ i. absent));
  local_user_table = λ n. none;
  chat_room_list = [];
  store = 0;
  events = [];
}

pub find_user_right :
    find_user keyed one_row (utf8 "ann") (utf8 "pw") (row ∷ []) ≡ some (utf8 "Ann")
unfolding find_user same utf8
find_user_right = refl

pub find_user_wrong : find_user keyed one_row (utf8 "ann") (utf8 "no") (row ∷ []) ≡ none
unfolding find_user same utf8
find_user_wrong = refl
