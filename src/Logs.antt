-- ===== src/Logs.antt =====
-- The reader that follows the audit log (src/logs.rs): `Tail::poll`. The calls of the file system are
-- `LogFiles`, their outcomes during one poll; `serde_json::from_slice::<LogRecord>` is `parse`.
pub mod Lines
pub mod Follow
mod Tests
use mistralrs_proxy.Prelude.{
  ℕ, ◌+◌, ◌==◌, ltb, min, ◌&&◌, Bool, true, false, Option, none, some, List, [], ◌∷◌, ◌++◌,
  if◌then◌else◌, length, u64_max, saturating_increment,
}
use mistralrs_proxy.Backend.Slot.{Result, ok, err}
use mistralrs_proxy.Usage.{is_ascii_whitespace}

pub data IoError : Type 0 where
  not_found other_error : IoError

abbrev pub is_not_found : IoError → Bool
is_not_found not_found = true
is_not_found other_error = false

-- An open file: which file it is (device and inode), and where it is read next.
pub record LogHandle : Type 0 where
  pub identity : ℕ
  pub position : ℕ

pub record Tail : Type 0 where
  pub file : Option LogHandle
  pub offset : ℕ
  pub partial : List ℕ
  pub malformed : ℕ

pub record Appended (R : Type 0) : Type 0 where
  pub records : List R
  pub restarted : Bool

-- What `read_to_end` has read, and its error.
pub record Chunk : Type 0 where
  pub bytes : List ℕ
  pub failure : Option IoError

-- `fs::metadata` and `File::open` of the path; `metadata`, `seek` and `read_to_end` of an open file.
pub record LogFiles : Type 0 where
  pub path_identity : Result ℕ IoError
  pub open_path : Result ℕ IoError
  pub handle_identity : LogHandle → Result ℕ IoError
  pub len : LogHandle → Result ℕ IoError
  pub seek_failure : Option IoError
  pub read_to_end : LogHandle → Chunk

unfoldable pub new_tail : Tail
new_tail = record { file = none; offset = 0; partial = []; malformed = 0 }

-- A file that was just opened, read from its start.
unfoldable pub opened : ℕ → Tail → Tail
opened identity t = record t {
  file = some (record { identity = identity; position = 0 });
  offset = 0;
  partial = [];
}

-- The first block: whether the path now names another file, which is then opened.
unfoldable pub check_identity : LogFiles → Tail → Result Bool IoError × Tail
unfolding opened
check_identity files t = elim t.file [
  | none ↦ (ok false, t)
  | some h ↦ elim files.path_identity [
    | err e ↦ if is_not_found e then (ok false, t) else (err e, t)
    | ok named ↦ elim (files.handle_identity h) [
      | err e ↦ (err e, t)
      | ok current ↦ if named == current then (ok false, t) else elim files.open_path [
        | err e ↦ (err e, t)
        | ok identity ↦ (ok true, opened identity t)
      ]
    ]
  ]
]

-- The loop over the complete lines: the bytes since the last line feed, the records so far and the
-- lines that were not valid.
pub record LineScan (R : Type 0) : Type 0 where
  pub line : List ℕ
  pub records : List R
  pub malformed : ℕ

abbrev pub all_whitespace : List ℕ → Bool
all_whitespace [] = true
all_whitespace (b ∷ bs) = is_ascii_whitespace b && all_whitespace bs

module _ {R : Type 0} (parse : List ℕ → Option R) where
  unfoldable pub end_line : LineScan R → LineScan R
  end_line s = if all_whitespace s.line then record s { line = [] } else elim (parse s.line) [
    | none ↦ record s { line = []; malformed = saturating_increment u64_max s.malformed }
    | some r ↦ record s { line = []; records = s.records ++ r ∷ [] }
  ]

  unfoldable pub scan_byte : ℕ → LineScan R → LineScan R
  unfolding end_line
  scan_byte b s = if b == 10 then end_line s else record s { line = s.line ++ b ∷ [] }

  unfoldable pub scan_lines : List ℕ → LineScan R → LineScan R
  unfolding scan_byte
  scan_lines [] s = s
  scan_lines (b ∷ bs) s = scan_lines bs (scan_byte b s)

  -- The bytes that were read, with the line held back before them.
  unfoldable pub absorb : Bool → List ℕ → Tail → Result (Appended R) IoError × Tail
  unfolding scan_lines
  absorb restarted bytes t =
      let s =
        scan_lines (t.partial ++ bytes)
          (record { line = []; records = []; malformed = t.malformed }) in
      (
        ok (record { records = s.records; restarted = restarted }),
        record t {
          offset = min (t.offset + length bytes) u64_max;
          partial = s.line;
          malformed = s.malformed;
        },
      )

  unfoldable pub read_appended :
      LogFiles → Bool → LogHandle → Tail → Result (Appended R) IoError × Tail
  unfolding absorb
  read_appended files restarted h t =
      let chunk = files.read_to_end h in
      let moved = record t {
        file = some (record h { position = h.position + length chunk.bytes });
      } in
      elim chunk.failure [ some e ↦ (err e, moved) | none ↦ absorb restarted chunk.bytes moved ]

  -- A file that is shorter than what was read of it is read from its start.
  unfoldable pub read_log : LogFiles → Bool → LogHandle → Tail → Result (Appended R) IoError × Tail
  unfolding read_appended
  read_log files restarted h t = elim (files.len h) [
    | err e ↦ (err e, t)
    | ok size ↦
        if ltb size t.offset
        then elim files.seek_failure [
          | some e ↦ (err e, t)
          | none ↦
              read_appended files true (record h { position = 0 })
                (record t { file = some (record h { position = 0 }); offset = 0; partial = [] })
        ]
        else read_appended files restarted h t
  ]

  unfoldable pub open_and_read : LogFiles → Bool → Tail → Result (Appended R) IoError × Tail
  unfolding read_log opened
  open_and_read files restarted t = elim t.file [
    | some h ↦ read_log files restarted h t
    | none ↦ elim files.open_path [
      | ok identity ↦
          read_log files restarted (record { identity = identity; position = 0 })
            (opened identity t)
      | err e ↦
          if is_not_found e
          then (ok (record { records = []; restarted = false }), t)
          else (err e, t)
    ]
  ]

  unfoldable pub poll : LogFiles → Tail → Result (Appended R) IoError × Tail
  unfolding check_identity open_and_read
  poll files t =
      let (checked, after) = check_identity files t in
      elim checked [ err e ↦ (err e, after) | ok restarted ↦ open_and_read files restarted after ]
