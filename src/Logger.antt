-- ===== src/Logger.antt =====
-- utility/Logger/Logger.cpp: a log file that is renamed when it has grown. The files are a function of
-- their name; what the clock and the file system answer is given with each call.
pub mod Rotation
use ix_library.Base.{
  ℕ, ◌+◌, Bool, true, false, Option, none, some, List, [], ◌∷◌, ◌++◌, length, ltb, ◌==◌, not, ◌&&◌,
  if◌then◌else◌, same, utf8,
}
use ix_library.Wire.{Bytes}
use ix_library.Actions.{Action, Done, ◌>>=◌, ◌>>◌, return, throw, gets, change, when}

-- The stream: `is_open`, and its fail bit.
pub record Logger : Type 0 where
  pub level : ℕ
  pub len : ℕ
  pub max_size : ℕ
  pub filename : Bytes
  pub is_open : Bool
  pub failed : Bool
  pub files : Bytes → Option Bytes

-- The time as the two formats write it, `none` where `localtime` fails, and whether the calls that
-- rename and open a file succeed.
pub record System : Type 0 where
  pub log_time : Option Bytes
  pub rotate_time : Option Bytes
  pub renames : Bool
  pub opens : Bool

abbrev pub Call : Type 0 → Type 0
Call A = Action Logger A

abbrev pub at_file : Bytes → Option Bytes → (Bytes → Option Bytes) → Bytes → Option Bytes
at_file name content files n = if same n name then content else files n

abbrev pub content_of : Option Bytes → Bytes
content_of none = []
content_of (some b) = b

abbrev pub level_name : ℕ → Bytes
level_name l =
    if l == 0
    then utf8 "DEBUG"
    else if l == 1
    then utf8 "INFO"
    else if l == 2
    then utf8 "WARN"
    else if l == 3
    then utf8 "ERROR"
    else utf8 "FATAL"

-- `m_fout << text`.
unfoldable pub write : Bytes → Call Done
write text = change (λ s.
    if s.is_open
    then record s {
      files = at_file s.filename (some (content_of (s.files s.filename) ++ text)) s.files;
    }
    else record s { failed = true })

unfoldable pub close : Call Done
close = change (λ s. if s.is_open then record s { is_open = false } else record s { failed = true })

abbrev pub opened : Bytes → Logger → Logger
opened filename s = record s {
  filename = filename;
  is_open = true;
  failed = false;
  files = at_file filename (some (content_of (s.files filename))) s.files;
  len = length (content_of (s.files filename));
}

-- For appending; the length is that of what is there. A stream that is open does not open again.
unfoldable pub open_file : System → Bytes → Call Done
open_file sys filename s =
    if not s.is_open && sys.opens
    then return tt (opened filename s)
    else throw (record s { filename = filename; failed = true })

-- The text before the last dot, and the text from it on; `substr` throws where there is none.
unfoldable pub split_last_dot : Bytes → Option (Bytes × Bytes)
split_last_dot [] = none
split_last_dot (c ∷ cs) =
    let rest = split_last_dot cs in
    elim rest [
      | none ↦ (if c == 46 then some ([], c ∷ cs) else none)
      | some (base, ext) ↦ some (c ∷ base, ext)
    ]

-- `rename` replaces a file that has the new name.
unfoldable pub rename : Bytes → Bytes → Call Done
rename old new =
    change (λ s. record s { files = at_file new (s.files old) (at_file old none s.files) })

unfoldable pub rotate_to : System → Option (Bytes × Bytes) → Bytes → Call Done
unfolding rename open_file
rotate_to sys none stamp s = throw s
rotate_to sys (some (base, ext)) stamp s =
    if sys.renames
    then (do rename s.filename (base ++ (stamp ++ ext)); open_file sys s.filename) s
    else throw s

unfoldable pub rotate : System → Call Done
unfolding close rotate_to split_last_dot
rotate sys = do
  close
  elim sys.rotate_time [
    | none ↦ return tt
    | some stamp ↦ λ s. rotate_to sys (split_last_dot s.filename) stamp s
  ]

-- The head of a line, `line` the number as text.
abbrev pub heading : Bytes → ℕ → Bytes → Bytes → Bytes
heading time l file line =
    time
    ++ (utf8 " [" ++ (level_name l ++ (utf8 "] " ++ (file ++ (utf8 ":" ++ (line ++ utf8 "  "))))))

unfoldable pub log_line : System → Bytes → Bytes → Call Done
unfolding write rotate
log_line sys head message = do
  change (λ s. record s { len = s.len + length head })
  write head
  change (λ s. record s { len = s.len + length message })
  write message
  write (utf8 "\n")
  grown ← gets (λ s. ltb s.max_size s.len)
  when grown (rotate sys)

-- `message` is what `vsnprintf` makes of the format and the arguments.
unfoldable pub log : System → ℕ → Bytes → Bytes → Bytes → Call Done
unfolding log_line
log sys l file line message s =
    if ltb l s.level then return tt s else if s.failed then throw s else elim sys.log_time [
      | none ↦ return tt s
      | some time ↦ log_line sys (heading time l file line) message s
    ]

abbrev pub set_level : ℕ → Logger → Logger
set_level l s = record s { level = l }

abbrev pub set_max_size : ℕ → Logger → Logger
set_max_size n s = record s { max_size = n }
