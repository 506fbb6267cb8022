-- ===== src/Logger/Rotation.antt =====
-- What a log file and the file it is renamed to hold.
use ix_library.Base.{
  ℕ, ◌+◌, ◌≤◌, ◌≡◌, refl, ap, ◌∙◌, true, false, Bool-cases, inl, inr, ◌⊎◌, none, some, ◌++◌,
  append-nil, append_assoc, length, ltb, ltb→le, same, same_refl, same_sym, utf8, arith,
}
use ix_library.Wire.{Bytes}
use ix_library.Actions.{Result, ok, Done, then_ok, when-true, when-false}
use ix_library.Logger.{
  Logger, System, at_file, content_of, write, close, opened, open_file, split_last_dot, rename,
  rotate_to, rotate, heading, log_line, log,
}

-- The state after a text was written to the open file.
abbrev appended : Bytes → Logger → Logger
appended text s = record s {
  files = at_file s.filename (some (content_of (s.files s.filename) ++ text)) s.files;
}

write-appended :
    (text : Bytes) (s : Logger) → s.is_open ≡ true → write text s ≡ (ok tt, appended text s)
unfolding write
write-appended text s o = rw (o, write) refl

-- After the three writes of a line.
abbrev lined : Bytes → Bytes → Logger → Logger
lined head message s =
    let a = appended head (record s { len = s.len + length head }) in
    appended (utf8 "\n") (appended message (record a { len = a.len + length message }))

lined_file :
    (head message : Bytes) (s : Logger)
    → content_of ((lined head message s).files s.filename)
      ≡ content_of (s.files s.filename) ++ (head ++ (message ++ utf8 "\n"))
lined_file head message s = rw (same_refl s.filename) (
    append_assoc (content_of (s.files s.filename) ++ head) message (utf8 "\n")
    ∙ append_assoc (content_of (s.files s.filename)) head (message ++ utf8 "\n"))

lined_other :
    (name head message : Bytes) (s : Logger)
    → same name s.filename ≡ false
    → (lined head message s).files name ≡ s.files name
lined_other name head message s o = rw o refl

log_line-lined :
    (sys : System) (head message : Bytes) (s : Logger) (r : Result Done × Logger)
    → s.is_open ≡ true
    → rotate sys (lined head message s) ≡ r
    → ltb s.max_size (lined head message s).len ≡ true
    → log_line sys head message s ≡ r
unfolding log_line
log_line-lined sys head message s r o e g =
    let a = record s { len = s.len + length head } in
    let b = appended head a in
    let c = record b { len = b.len + length message } in
    then_ok _ _ refl (
      then_ok _ _ (write-appended head a o) (
        then_ok _ _ refl (
          then_ok _ _ (write-appended message c o) (
            then_ok _ _ (write-appended (utf8 "\n") (appended message c) o)
              (then_ok _ _ refl (when-true _ g e))))))

log_line_short :
    (sys : System) (head message : Bytes) (s : Logger)
    → s.is_open ≡ true
    → ltb s.max_size (lined head message s).len ≡ false
    → log_line sys head message s ≡ (ok tt, lined head message s)
unfolding log_line
log_line_short sys head message s o g =
    let a = record s { len = s.len + length head } in
    let b = appended head a in
    let c = record b { len = b.len + length message } in
    then_ok _ _ refl (
      then_ok _ _ (write-appended head a o) (
        then_ok _ _ refl (
          then_ok _ _ (write-appended message c o) (
            then_ok _ _ (write-appended (utf8 "\n") (appended message c) o)
              (then_ok _ _ refl (when-false _ g))))))

-- The state after the file was renamed to `archive`, and a new one opened.
abbrev turned : Bytes → Logger → Logger
turned archive s = opened s.filename (record s {
  is_open = false;
  files = at_file archive (s.files s.filename) (at_file s.filename none s.files);
})

close_open : (s : Logger) → s.is_open ≡ true → close s ≡ (ok tt, record s { is_open = false })
unfolding close
close_open s o = rw (o, close) refl

rotate-turned :
    (sys : System) (base ext stamp : Bytes) (s : Logger)
    → s.is_open ≡ true
    → sys.rotate_time ≡ some stamp
    → split_last_dot s.filename ≡ some (base, ext)
    → sys.renames ≡ true
    → sys.opens ≡ true
    → rotate sys s ≡ (ok tt, turned (base ++ (stamp ++ ext)) s)
unfolding rotate rotate_to close rename open_file
rotate-turned sys base ext stamp s o t d r p =
    then_ok _ _ (close_open s o) (rw (t, d, r) (then_ok _ _ refl (rw p refl)))

-- What a call of `log` leaves, with the name that the file gets when it is renamed.
pub record Logged (archive line : Bytes) (s t : Logger) : Type 0 where
  pub kept :
      content_of (t.files archive) ++ content_of (t.files s.filename)
      ≡ content_of (s.files s.filename) ++ line
  pub others :
      (name : Bytes)
      → same name s.filename ≡ false
      → same name archive ≡ false
      → t.files name ≡ s.files name
  pub small : t.len ≤ t.max_size
  pub ready : (t.is_open ≡ true) × ((t.failed ≡ false) × (t.filename ≡ s.filename))

lined-Logged :
    (archive head message : Bytes) (s : Logger)
    → s.is_open ≡ true
    → s.failed ≡ false
    → same archive s.filename ≡ false
    → s.files archive ≡ none
    → ltb s.max_size (lined head message s).len ≡ false
    → Logged archive (head ++ (message ++ utf8 "\n")) s (lined head message s)
lined-Logged archive head message s o f a n g = record {
  kept =
      ap (λ x. content_of x ++ content_of ((lined head message s).files s.filename))
        (lined_other archive head message s a ∙ n)
      ∙ lined_file head message s;
  others = λ name b c. lined_other name head message s b;
  small = ltb→le s.max_size (lined head message s).len g;
  ready = (o, (f, refl));
}

turned-Logged :
    (archive head message : Bytes) (s : Logger)
    → same archive s.filename ≡ false
    → Logged archive (head ++ (message ++ utf8 "\n")) s (turned archive (lined head message s))
turned-Logged archive head message s a =
    let b : same s.filename archive ≡ false = same_sym s.filename archive ∙ a in
    record {
      kept =
          rw (a, same_refl archive, same_refl s.filename, b)
            (append-nil _
              ∙ append_assoc (content_of (s.files s.filename) ++ head) message (utf8 "\n")
              ∙ append_assoc (content_of (s.files s.filename)) head (message ++ utf8 "\n"));
      others = λ name c d. rw (c, d) refl;
      small = rw (b, same_refl s.filename) (omega arith);
      ready = (refl, (refl, refl));
    }

log-log_line :
    (sys : System) (l : ℕ) (file line message time : Bytes) (s : Logger)
    → ltb l s.level ≡ false
    → s.failed ≡ false
    → sys.log_time ≡ some time
    → log sys l file line message s ≡ log_line sys (heading time l file line) message s
unfolding log
log-log_line sys l file line message time s lv f t = simp (lv, f, t) refl

-- A line that is logged to an open file whose name has a dot, while the clock and the file system
-- answer, and no file has the name that the file would be renamed to: the call returns with the file
-- open, the line stands behind what was there, in the file or in the renamed file before it, no other
-- file is touched, and the length counted is within the limit again.
pub log_keeps_lines :
    (sys : System) (l : ℕ) (file line message time stamp base ext : Bytes) (s : Logger)
    → s.is_open ≡ true
    → s.failed ≡ false
    → ltb l s.level ≡ false
    → sys.log_time ≡ some time
    → sys.rotate_time ≡ some stamp
    → sys.renames ≡ true
    → sys.opens ≡ true
    → split_last_dot s.filename ≡ some (base, ext)
    → same (base ++ (stamp ++ ext)) s.filename ≡ false
    → s.files (base ++ (stamp ++ ext)) ≡ none
    → ((log sys l file line message s).0 ≡ ok tt)
      × Logged
          (base ++ (stamp ++ ext))
          (heading time l file line ++ (message ++ utf8 "\n"))
          s
          (log sys l file line message s).1
log_keeps_lines sys l file line message time stamp base ext s o f lv t u r p d a n =
    by_size (Bool-cases (ltb s.max_size (lined head message s).len))
  where
    head : Bytes
    head = heading time l file line

    by_size :
        (ltb s.max_size (lined head message s).len ≡ true)
          ⊎ (ltb s.max_size (lined head message s).len ≡ false)
        → ((log sys l file line message s).0 ≡ ok tt)
          × Logged
              (base ++ (stamp ++ ext))
              (heading time l file line ++ (message ++ utf8 "\n"))
              s
              (log sys l file line message s).1
    by_size (inl g) =
        rw
          (
            log-log_line sys l file line message time s lv f t,
            log_line-lined sys head message s _ o
                (rotate-turned sys base ext stamp (lined head message s) o u d r p) g,
          )
          (refl, turned-Logged (base ++ (stamp ++ ext)) head message s a)
    by_size (inr g) =
        rw
          (
            log-log_line sys l file line message time s lv f t,
            log_line_short sys head message s o g,
          )
          (refl, lined-Logged (base ++ (stamp ++ ext)) head message s o f a n g)
