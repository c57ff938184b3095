-- ===== src/Logs/Tests.antt =====
-- Polls of a small log, and the theorems at them. A line parses to its length unless it starts with x.
use mistralrs_proxy.Prelude.{
  ℕ, zero, suc, ◌==◌, ◌≡◌, refl, ap, ◌∙◌, false, Option, none, some, List, [], ◌∷◌, ◌++◌, arith,
  length, if◌then◌else◌,
}
use mistralrs_proxy.Backend.Slot.{ok}
use mistralrs_proxy.Usage.{is_ascii_whitespace}
use mistralrs_proxy.Logs.{
  Tail, LogFiles, new_tail, opened, poll, check_identity, open_and_read, read_log, read_appended,
  absorb, scan_lines, scan_byte, end_line,
}
use mistralrs_proxy.Logs.Follow.{handle, Serves, Follows, unopened, poll-Follows, poll-Anew}

abbrev drop : ℕ → List ℕ → List ℕ
drop zero xs = xs
drop (suc n) [] = []
drop (suc n) (x ∷ xs) = drop n xs

drop-append : (pre post : List ℕ) → drop (length pre) (pre ++ post) ≡ post
drop-append [] post = refl
drop-append (x ∷ pre) post = drop-append pre post

-- A file system whose path names the file 7 with these contents.
abbrev serving : List ℕ → LogFiles
serving contents = record {
  path_identity = ok 7;
  open_path = ok 7;
  handle_identity = λ h. ok h.identity;
  len = λ h. ok (length contents);
  seek_failure = none;
  read_to_end = λ h. record { bytes = drop h.position contents; failure = none };
}

serving-Serves : (contents : List ℕ) → Serves (serving contents) 7 contents
serving-Serves contents = record {
  path = refl;
  opens = refl;
  handles = λ h. refl;
  size = λ position. refl;
  seeks = refl;
  reads = λ pre post e.
      ap (λ bytes. record { bytes = bytes; failure = none })
        (ap (drop (length pre)) e ∙ drop-append pre post);
}

abbrev by_length : List ℕ → Option ℕ
by_length [] = some 0
by_length (b ∷ bs) = if b == b'x' then none else some (length (b ∷ bs))

abbrev log_start : List ℕ
log_start = b'a' ∷ b'b' ∷ 10 ∷ b'x' ∷ 10 ∷ b'c' ∷ []

abbrev log_rest : List ℕ
log_rest = b'd' ∷ b'e' ∷ 10 ∷ 32 ∷ 10 ∷ []

-- One record, one line that does not parse, and one byte of the next line.
abbrev reader : Tail
reader = record { file = some (handle 7 6); offset = 6; partial = b'c' ∷ []; malformed = 1 }

first_poll :
    poll by_length (serving log_start) new_tail
    ≡ (ok (record { records = 2 ∷ []; restarted = false }), reader)
unfolding poll check_identity open_and_read read_log read_appended absorb scan_lines scan_byte
    end_line opened new_tail is_ascii_whitespace
first_poll = refl

second_poll : poll by_length (serving (log_start ++ log_rest)) reader ≡ (
  ok (record { records = 3 ∷ []; restarted = false }),
  record { file = some (handle 7 11); offset = 11; partial = []; malformed = 1 },
)
unfolding poll check_identity open_and_read read_log read_appended absorb scan_lines scan_byte
    end_line opened is_ascii_whitespace
second_poll = refl

reader-Follows : Follows by_length 0 7 log_start (2 ∷ []) reader
unfolding scan_lines scan_byte end_line is_ascii_whitespace
reader-Follows = record { file = refl; offset = refl; scanned = refl }

poll-Follows_example :
    (new : List ℕ) × (after : Tail) × (poll by_length (serving (log_start ++ log_rest)) reader
      ≡ (ok (record { records = new; restarted = false }), after))
    × Follows by_length 0 7 (log_start ++ log_rest) (2 ∷ new) after
poll-Follows_example =
    poll-Follows by_length (serving (log_start ++ log_rest)) 0 7 log_start log_rest (2 ∷ []) reader
      (serving-Serves (log_start ++ log_rest)) reader-Follows (omega arith)

new_tail-unopened : new_tail.file ≡ none
unfolding new_tail
new_tail-unopened = refl

new_tail-Follows :
    (rs : List ℕ) × (after : Tail) × (poll by_length (serving log_start) new_tail
      ≡ (ok (record { records = rs; restarted = false }), after))
    × Follows by_length new_tail.malformed 7 log_start rs after
new_tail-Follows =
    poll-Anew by_length (serving log_start) 7 log_start new_tail false (serving-Serves log_start)
      (unopened new_tail-unopened) (omega arith)
