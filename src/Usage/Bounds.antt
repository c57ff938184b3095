-- ===== src/Usage/Bounds.antt =====
-- The scanner stays within its tables and its buffer (src/usage.rs).
use mistralrs_proxy.Prelude.{
  ℕ, zero, suc, ◌≤◌, ◌<◌, ◌≡◌, refl, Bool, true, false, Option, some, List, [], ◌∷◌, ◌++◌, arith,
  length, length-append, sym, ◌∙◌,
}
use mistralrs_proxy.Prelude.Monad.{returned, bind_outcome, bind_outcome_cong, bind_outcome_assoc}
use mistralrs_proxy.Usage.{
  UsageFields, State, searching, awaiting_colon, awaiting_value, skipping_null, capturing,
  UsageSniffer, max_object_bytes, needle, null, byte_at, new, restart, capture_byte, finish_object,
  close_or_cap, feed_state, feed_byte, feed,
}

-- What the state must satisfy, given the bytes buffered: the needle index is one of its seven bytes,
-- the `null` index one of its last three, and the depth at most the bytes buffered.
abbrev pub InBounds : State → ℕ → Type 0
InBounds (searching matched) n = (matched < 7) × (n ≡ 0)
InBounds awaiting_colon n = n ≡ 0
InBounds awaiting_value n = n ≡ 0
InBounds (skipping_null matched) n = (0 < matched) × (matched < 4) × (n ≡ 0)
InBounds (capturing depth in_string escaped) n = (0 < depth) × (depth ≤ n) × (n < max_object_bytes)

pub record IsValid (s : UsageSniffer) : Type 0 where
  pub in_bounds : InBounds s.state (length s.object)

pub new-IsValid : IsValid new
unfolding new
new-IsValid = omega arith

byte_at-some : (xs : List ℕ) (i : ℕ) → i < length xs → (x : ℕ) × (byte_at xs i ≡ some x)
byte_at-some [] i h = elim h [ ]
byte_at-some (x ∷ xs) zero h = (x, refl)
byte_at-some (x ∷ xs) (suc i) h = byte_at-some xs i (omega arith)

restart-IsValid : (b : ℕ) (s : UsageSniffer) → IsValid (restart b s)
unfolding restart
restart-IsValid b s = ground arith

module _ (parse : List ℕ → Option UsageFields) where
  -- A byte of a captured object, as a step on the depth and the length.
  capture-IsValid :
      (depth : ℕ) (in_string escaped : Bool) (b : ℕ) (s : UsageSniffer)
      → InBounds (capturing depth in_string escaped) (length s.object)
      → IsValid (
          close_or_cap parse (record s {
            state = capture_byte b depth in_string escaped;
            object = s.object ++ b ∷ [];
          }))
  unfolding close_or_cap capture_byte finish_object
  capture-IsValid depth true true b s h = ground (arith, length-append s.object (b ∷ []))
  capture-IsValid depth true false b s h = ground (arith, length-append s.object (b ∷ []))
  capture-IsValid depth false escaped b s h = ground (arith, length-append s.object (b ∷ []))

  feed_state-IsValid :
      (st : State) (b : ℕ) (s : UsageSniffer)
      → s.state ≡ st
      → InBounds st (length s.object)
      → (u : UsageSniffer) × (feed_state parse st b s ≡ returned tt u) × IsValid u
  unfolding feed_state
  feed_state-IsValid (searching matched) b s i h =
      let (x, e) = byte_at-some needle matched h.0 in rw e (_, refl, ground arith)
  feed_state-IsValid awaiting_colon b s i h = (_, refl, ground (arith, restart-IsValid b s))
  feed_state-IsValid awaiting_value b s i h = (_, refl, ground (arith, restart-IsValid b s))
  feed_state-IsValid (skipping_null matched) b s i h =
      let (x, e) = byte_at-some null matched h.1 in
      rw e (_, refl, ground (arith, restart-IsValid b s))
  feed_state-IsValid (capturing depth in_string escaped) b s i h =
      (_, refl, capture-IsValid depth in_string escaped b s h)

  pub feed-IsValid :
      (bs : List ℕ) (s : UsageSniffer)
      → IsValid s
      → (u : UsageSniffer) × (feed parse bs s ≡ returned tt u) × IsValid u
  unfolding feed feed_byte
  feed-IsValid [] s v = (s, refl, v)
  feed-IsValid (b ∷ bs) s v =
      let (t, e, w) = feed_state-IsValid s.state b s refl v.in_bounds in
      let (u, f, x) = feed-IsValid bs t w in (u, rw e f, x)

  -- Any body at all is read without an index out of range from a new scanner, and leaves it in
  -- bounds (`IsValid`), with fewer than `MAX_OBJECT_BYTES` bytes buffered.
  pub feed-new-IsValid :
      (bs : List ℕ)
      → (u : UsageSniffer) × (feed parse bs new ≡ returned tt u)
        × IsValid u
        × (length u.object < max_object_bytes)
  feed-new-IsValid bs =
      let (u, e, v) = feed-IsValid bs new new-IsValid in (u, e, v, bounded u.state v.in_bounds)
    where
      bounded : {n : ℕ} (st : State) → InBounds st n → n < max_object_bytes
      bounded (searching m) h = omega arith
      bounded awaiting_colon h = omega arith
      bounded awaiting_value h = omega arith
      bounded (skipping_null m) h = omega arith
      bounded (capturing d i e) h = omega arith

  -- A body may be fed in any number of pieces: the result is that of its bytes in one piece.
  pub feed-append :
      (xs ys : List ℕ) (s : UsageSniffer)
      → feed parse (xs ++ ys) s ≡ bind_outcome (feed parse xs s) (λ _. feed parse ys)
  unfolding feed
  feed-append [] ys s = refl
  feed-append (x ∷ xs) ys s =
      bind_outcome_cong (feed_byte parse x s) (λ _ v. feed-append xs ys v)
      ∙ sym (bind_outcome_assoc (feed_byte parse x s) (λ _. feed parse xs) (λ _. feed parse ys))
