-- ===== src/Logs/Lines.antt =====
-- The loop of `Tail::poll` over the lines of what was read (src/logs.rs), split and joined.
use mistralrs_proxy.Prelude.{
  Bool-cases, Option-cases, inl, inr, ℕ, ◌==◌, ◌≡◌, refl, sym, ap, ◌∙◌, false, Option, List, [],
  ◌∷◌, ◌++◌, All,
}
use mathlib.Core.List.{append_assoc, append-nil}
use mistralrs_proxy.Logs.{LineScan, all_whitespace, end_line, scan_byte, scan_lines}

abbrev pub NoFeed : List ℕ → Type 0
NoFeed = All (λ b. (b == 10) ≡ false)

NoFeed-append : (xs : List ℕ) (b : ℕ) → NoFeed xs → (b == 10) ≡ false → NoFeed (xs ++ b ∷ [])
NoFeed-append [] b h e = (e, tt)
NoFeed-append (x ∷ xs) b (hx, h) e = (hx, NoFeed-append xs b h e)

module _ {R : Type 0} (parse : List ℕ → Option R) where
  abbrev pub after_records : List R → LineScan R → LineScan R
  after_records rs s = record s { records = rs ++ s.records }

  end_line-line : (s : LineScan R) → (end_line parse s).line ≡ []
  unfolding end_line
  end_line-line s = elim (Bool-cases (all_whitespace s.line)) [
    | inl e ↦ rw e refl
    | inr e ↦ elim (Option-cases (parse s.line)) [
      | inl n ↦ rw (e, n) refl
      | inr (r, n) ↦ rw (e, n) refl
    ]
  ]

  end_line-after :
      (rs : List R) (s : LineScan R)
      → end_line parse (after_records rs s) ≡ after_records rs (end_line parse s)
  unfolding end_line
  end_line-after rs s = elim (Bool-cases (all_whitespace s.line)) [
    | inl e ↦ rw e refl
    | inr e ↦ elim (Option-cases (parse s.line)) [
      | inl n ↦ rw (e, n) refl
      | inr (r, n) ↦
          rw (e, n)
            (ap (λ qs. record s { line = []; records = qs }) (append_assoc rs s.records (r ∷ [])))
    ]
  ]

  scan_byte-NoFeed : (b : ℕ) (s : LineScan R) → NoFeed s.line → NoFeed (scan_byte parse b s).line
  unfolding scan_byte
  scan_byte-NoFeed b s h = elim (Bool-cases (b == 10)) [
    | inl e ↦ rw (e, end_line-line s) tt
    | inr e ↦ rw e (NoFeed-append s.line b h e)
  ]

  scan_byte-after :
      (b : ℕ) (rs : List R) (s : LineScan R)
      → scan_byte parse b (after_records rs s) ≡ after_records rs (scan_byte parse b s)
  unfolding scan_byte
  scan_byte-after b rs s = elim (Bool-cases (b == 10)) [
    | inl e ↦ rw e (end_line-after rs s)
    | inr e ↦ rw e refl
  ]

  pub scan_lines-NoFeed :
      (bs : List ℕ) (s : LineScan R) → NoFeed s.line → NoFeed (scan_lines parse bs s).line
  unfolding scan_lines
  scan_lines-NoFeed [] s h = h
  scan_lines-NoFeed (b ∷ bs) s h = scan_lines-NoFeed bs _ (scan_byte-NoFeed b s h)

  pub scan_lines-append :
      (xs ys : List ℕ) (s : LineScan R)
      → scan_lines parse (xs ++ ys) s ≡ scan_lines parse ys (scan_lines parse xs s)
  unfolding scan_lines
  scan_lines-append [] ys s = refl
  scan_lines-append (x ∷ xs) ys s = scan_lines-append xs ys _

  pub scan_lines-after :
      (bs : List ℕ) (rs : List R) (s : LineScan R)
      → scan_lines parse bs (after_records rs s) ≡ after_records rs (scan_lines parse bs s)
  unfolding scan_lines
  scan_lines-after [] rs s = refl
  scan_lines-after (b ∷ bs) rs s =
      ap (scan_lines parse bs) (scan_byte-after b rs s) ∙ scan_lines-after bs rs _

  pub scan_lines-line :
      (p l : List ℕ) (rs : List R) (m : ℕ)
      → NoFeed p
      → scan_lines parse p (record { line = l; records = rs; malformed = m })
        ≡ record { line = l ++ p; records = rs; malformed = m }
  unfolding scan_lines scan_byte
  scan_lines-line [] l rs m h =
      ap (λ x. record { line = x; records = rs; malformed = m }) (sym (append-nil l))
  scan_lines-line (x ∷ p) l rs m (hx, h) = rw hx (
      scan_lines-line p (l ++ x ∷ []) rs m h
      ∙ ap (λ y. record { line = y; records = rs; malformed = m }) (append_assoc l (x ∷ []) p))
