-- ===== src/Logs/Follow.antt =====
-- A reader of the audit log (src/logs.rs) that follows one file as it grows.
use mistralrs_proxy.Prelude.{
  ℕ, ◌==◌, ltb, ◌+◌, ◌≤◌, ◌<◌, ◌≡◌, refl, sym, ap, subst, ◌∙◌, ◌≢◌, Bool, true, false, Option, none,
  some, List, [], ◌++◌, min, arith, length, length-append, u64_max,
}
use mathlib.Core.List.{append-nil}
use mistralrs_proxy.Backend.Slot.{ok}
use mistralrs_proxy.Logs.{
  Tail, LogHandle, LogFiles, LineScan, scan_lines, absorb, read_appended, read_log, open_and_read,
  check_identity, opened, poll,
}
use mistralrs_proxy.Logs.Lines.{
  NoFeed, after_records, scan_lines-NoFeed, scan_lines-append, scan_lines-after, scan_lines-line,
}

abbrev pub handle : ℕ → ℕ → LogHandle
handle identity position = record { identity = identity; position = position }

-- The path names the file `identity`, with these contents, and no call fails.
pub record Serves (files : LogFiles) (identity : ℕ) (contents : List ℕ) : Type 0 where
  pub path : files.path_identity ≡ ok identity
  pub opens : files.open_path ≡ ok identity
  pub handles : (h : LogHandle) → files.handle_identity h ≡ ok h.identity
  pub size : (position : ℕ) → files.len (handle identity position) ≡ ok (length contents)
  pub seeks : files.seek_failure ≡ none
  pub reads :
      (pre post : List ℕ)
      → contents ≡ pre ++ post
      → files.read_to_end (handle identity (length pre)) ≡ record { bytes = post; failure = none }

is_same : (a : ℕ) → (a == a) ≡ true
is_same a = ground arith

is_other : (a b : ℕ) → a ≢ b → (a == b) ≡ false
is_other a b ne = ground arith

is_shorter : (a b : ℕ) → a < b → ltb a b ≡ true
is_shorter a b h = ground arith

not_shorter : (pre post : List ℕ) → ltb (length (pre ++ post)) (length pre) ≡ false
not_shorter pre post = ground (arith, length-append pre post)

module _ {R : Type 0} (parse : List ℕ → Option R) where
  abbrev pub first_scan : ℕ → LineScan R
  first_scan m = record { line = []; records = []; malformed = m }

  -- The reader has read these contents of the file, has given out the records of its complete lines and
  -- holds back the rest.
  pub record Follows (m identity : ℕ) (contents : List ℕ) (rs : List R) (t : Tail) : Type 0 where
    pub file : t.file ≡ some (handle identity (length contents))
    pub offset : t.offset ≡ length contents
    pub scanned :
        scan_lines parse contents (first_scan m)
        ≡ record { line = t.partial; records = rs; malformed = t.malformed }

  scan_on :
      (m : ℕ) (pre post : List ℕ) (rs : List R) (p : List ℕ) (n : ℕ)
      → scan_lines parse pre (first_scan m) ≡ record { line = p; records = rs; malformed = n }
      → scan_lines parse (pre ++ post) (first_scan m)
        ≡ after_records parse rs (scan_lines parse (p ++ post) (first_scan n))
  scan_on m pre post rs p n e =
      rw
        (
          scan_lines-append parse pre post (first_scan m),
          e,
          scan_lines-append parse p post (first_scan n),
          scan_lines-line parse p [] [] n
              (subst (λ s. NoFeed s.line) e (scan_lines-NoFeed parse pre (first_scan m) tt)),
        )
        (ap (λ qs. scan_lines parse post (record { line = p; records = qs; malformed = n }))
            (sym (append-nil rs))
          ∙ scan_lines-after parse post rs (record { line = p; records = []; malformed = n }))

  read_appended-Follows :
      (files : LogFiles) (restarted : Bool) (m identity : ℕ) (pre post : List ℕ) (rs : List R)
      (t : Tail)
      → Serves files identity (pre ++ post)
      → t.offset ≡ length pre
      → scan_lines parse pre (first_scan m)
        ≡ record { line = t.partial; records = rs; malformed = t.malformed }
      → length (pre ++ post) ≤ u64_max
      → (new : List R) × (after : Tail) × (read_appended parse files restarted
            (handle identity (length pre))
            t
          ≡ (ok (record { records = new; restarted = restarted }), after))
        × Follows m identity (pre ++ post) (rs ++ new) after
  unfolding read_appended absorb
  read_appended-Follows files restarted m identity pre post rs t serves o e b =
      let s = scan_lines parse (t.partial ++ post) (first_scan t.malformed) in
      (
        s.records,
        record {
          file = some (handle identity (length pre + length post));
          offset = min (t.offset + length post) u64_max;
          partial = s.line;
          malformed = s.malformed;
        },
        simp (read_appended, absorb, serves.reads pre post refl) refl,
        record {
          file = ap (λ k. some (handle identity k)) (sym (length-append pre post));
          offset = omega (arith, o, length-append pre post, b);
          scanned = scan_on m pre post rs t.partial t.malformed e;
        },
      )

  -- Why a poll starts a file over, and whether it says so: nothing was open, the path names another
  -- file, or the file is shorter than what was read of it.
  pub data Anew (identity size : ℕ) (t : Tail) : Bool → Type 0 where
    unopened : t.file ≡ none → Anew identity size t false
    renamed : (h : LogHandle) → t.file ≡ some h → identity ≢ h.identity → Anew identity size t true
    truncated :
        (position : ℕ)
        → t.file ≡ some (handle identity position)
        → size < t.offset
        → Anew identity size t true

  poll-Follows-read_appended :
      (files : LogFiles) (m identity : ℕ) (pre post : List ℕ) (rs : List R) (t : Tail)
      → Serves files identity (pre ++ post)
      → Follows m identity pre rs t
      → poll parse files t ≡ read_appended parse files false (handle identity (length pre)) t
  unfolding poll check_identity open_and_read read_log
  poll-Follows-read_appended files m identity pre post rs t serves follows =
      simp
        (
          poll,
          check_identity,
          open_and_read,
          read_log,
          follows.file,
          serves.path,
          serves.handles (handle identity (length pre)),
          is_same identity,
          serves.size (length pre),
          follows.offset,
          not_shorter pre post,
        )
        refl

  -- A reader that follows a file whose contents have grown, anywhere in a line, follows it still: with
  -- the records given before, the new ones are those of all complete lines, the rest is held back, and
  -- the reader does not say that it restarted. The file is shorter than 2^64 bytes, and no call fails.
  pub poll-Follows :
      (files : LogFiles) (m identity : ℕ) (pre post : List ℕ) (rs : List R) (t : Tail)
      → Serves files identity (pre ++ post)
      → Follows m identity pre rs t
      → length (pre ++ post) ≤ u64_max
      → (new : List R) × (after : Tail) × (poll parse files t
          ≡ (ok (record { records = new; restarted = false }), after))
        × Follows m identity (pre ++ post) (rs ++ new) after
  poll-Follows files m identity pre post rs t serves follows b =
      rw (poll-Follows-read_appended files m identity pre post rs t serves follows) (
        read_appended-Follows files false m identity pre post rs t serves follows.offset
          follows.scanned b)

  poll-Anew-read_appended :
      (files : LogFiles) (identity : ℕ) (contents : List ℕ) (t : Tail) (restarted : Bool)
      → Serves files identity contents
      → Anew identity (length contents) t restarted
      → poll parse files t
        ≡ read_appended parse files restarted (handle identity 0) (opened identity t)
  unfolding poll check_identity open_and_read read_log opened
  poll-Anew-read_appended files identity contents t restarted serves (unopened e) =
      simp
        (
          poll,
          check_identity,
          open_and_read,
          read_log,
          e,
          serves.opens,
          serves.size 0,
          not_shorter [] contents,
        )
        refl
  poll-Anew-read_appended files identity contents t restarted serves (renamed h e ne) =
      simp
        (
          poll,
          check_identity,
          open_and_read,
          read_log,
          e,
          serves.path,
          serves.handles h,
          is_other identity h.identity ne,
          serves.opens,
          serves.size 0,
          not_shorter [] contents,
        )
        refl
  poll-Anew-read_appended files identity contents t restarted serves (truncated position e lt) =
      simp
        (
          poll,
          check_identity,
          open_and_read,
          read_log,
          e,
          serves.path,
          serves.handles (handle identity position),
          is_same identity,
          serves.size position,
          is_shorter _ _ lt,
          serves.seeks,
        )
        refl

  -- A reader that starts a file over follows it from then on.
  pub poll-Anew :
      (files : LogFiles) (identity : ℕ) (contents : List ℕ) (t : Tail) (restarted : Bool)
      → Serves files identity contents
      → Anew identity (length contents) t restarted
      → length contents ≤ u64_max
      → (rs : List R) × (after : Tail) × (poll parse files t
          ≡ (ok (record { records = rs; restarted = restarted }), after))
        × Follows t.malformed identity contents rs after
  unfolding opened scan_lines
  poll-Anew files identity contents t restarted serves anew b =
      rw (poll-Anew-read_appended files identity contents t restarted serves anew) (
        read_appended-Follows files restarted t.malformed identity [] contents []
          (opened identity t) serves refl refl b)
