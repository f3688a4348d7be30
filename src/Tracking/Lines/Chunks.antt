-- ===== src/Tracking/Lines/Chunks.antt =====
-- The receive loop delivers the lines of the byte stream, however the stream is cut into chunks.
use mavcam.Prelude.{
  ℕ, zero, suc, ◌<◌, ◌≡◌, refl, sym, ap, ◌∙◌, ◌⊎◌, inl, inr, Bool, true, false, none, some, List,
  [], ◌∷◌, ◌++◌, ◌==◌, length, length-append, Bool-cases, arith,
}
use mathlib.Core.List.{append_assoc, append-nil}
use mavcam.Tracking.Lines.{
  newline, split_line, Recv, again, closed, bytes, consume, receive, handle_client, feed,
  feed-append,
}

-- No byte of the list is a newline.
abbrev pub NoNewline : List ℕ → Type 0
NoNewline [] = Unit {0}
NoNewline (c ∷ cs) = ((c == newline) ≡ false) × NoNewline cs

-- The text up to the first newline and the text after it, or no newline at all.
abbrev Splits : List ℕ → Type 0
Splits p =
    ((split_line p ≡ none) × NoNewline p)
    ⊎ ((line rest : List ℕ) × (split_line p ≡ some (line, rest))
        × (p ≡ line ++ newline ∷ rest)
        × NoNewline line)

split_line-Splits : (p : List ℕ) → Splits p
unfolding split_line
split_line-Splits [] = inl (refl, tt)
split_line-Splits (c ∷ cs) = elim (Bool-cases (c == newline)) [
  | inl e ↦ inr ([], cs, rw (e, split_line), ground arith, tt)
  | inr e ↦ elim (split_line-Splits cs) [
    | inl (n, h) ↦ inl (rw (e, split_line, n), (e, h))
    | inr (line, rest, q, eq, h) ↦
        inr (c ∷ line, rest, rw (e, split_line, q), ap (◌∷◌ c) eq, (e, h))
  ]
]

NoNewline-append :
    (xs : List ℕ) (c : ℕ) → NoNewline xs → (c == newline) ≡ false → NoNewline (xs ++ c ∷ [])
NoNewline-append [] c h e = (e, tt)
NoNewline-append (x ∷ xs) c h e = (h.0, NoNewline-append xs c h.1 e)

module _ {S : Type 0} (deliver : List ℕ → S → S) where
  feed-NoNewline :
      (line xs ys : List ℕ) (s : S)
      → NoNewline xs
      → feed deliver line (xs ++ ys) s ≡ feed deliver (line ++ xs) ys s
  unfolding feed
  feed-NoNewline line [] ys s h = rw append-nil
  feed-NoNewline line (x ∷ xs) ys s h =
      rw (h.0, feed)
        (feed-NoNewline (line ++ x ∷ []) xs ys s h.1
          ∙ ap (λ l. feed deliver l ys s) (append_assoc line (x ∷ []) xs))

  feed-line :
      (line rest : List ℕ) (s : S)
      → NoNewline line
      → feed deliver [] (line ++ newline ∷ rest) s ≡ feed deliver [] rest (deliver line s)
  unfolding feed
  feed-line line rest s h = feed-NoNewline [] line (newline ∷ rest) s h

  -- With more fuel than bytes the inner loop reads the pending bytes as lines.
  consume-eq-feed :
      (fuel : ℕ) (p : List ℕ) (s : S)
      → length p < fuel
      → consume deliver fuel p s ≡ feed deliver [] p s
  unfolding consume feed
  consume-eq-feed zero p s h = absurd (omega arith)
  consume-eq-feed (suc fuel) p s h = elim (split_line-Splits p) [
    | inl (e, n) ↦
        rw (e, consume)
          (sym (sym (ap (λ q. feed deliver [] q s) (append-nil p)) ∙ feed-NoNewline [] p [] s n))
    | inr (line, rest, e, eq, n) ↦
        rw (e, consume)
          (consume-eq-feed fuel rest (deliver line s)
              (omega (arith, ap length eq, length-append line (newline ∷ rest)))
            ∙ sym (ap (λ q. feed deliver [] q s) eq ∙ feed-line line rest s n))
  ]

  receive-eq-feed :
      (p chunk : List ℕ) (s : S)
      → NoNewline p
      → receive deliver chunk (p, s) ≡ feed deliver p chunk s
  unfolding receive
  receive-eq-feed p chunk s h =
      consume-eq-feed (suc (length (p ++ chunk))) (p ++ chunk) s (omega arith)
      ∙ feed-NoNewline [] p chunk s h

  feed-pending : (p cs : List ℕ) (s : S) → NoNewline p → NoNewline (feed deliver p cs s).0
  unfolding feed
  feed-pending p [] s h = h
  feed-pending p (c ∷ cs) s h = elim (Bool-cases (c == newline)) [
    | inl e ↦ rw (e, feed) (feed-pending [] cs (deliver p s) tt)
    | inr e ↦ rw (e, feed) (feed-pending (p ++ c ∷ []) cs s (NoNewline-append p c h e))
  ]

-- The bytes that come in before the server stops or the connection ends.
abbrev pub received : List (Bool × Recv) → List ℕ
received [] = []
received ((false, _) ∷ rounds) = []
received ((true, again) ∷ rounds) = received rounds
received ((true, closed) ∷ rounds) = []
received ((true, bytes chunk) ∷ rounds) = chunk ++ received rounds

module _ {S : Type 0} (deliver : List ℕ → S → S) where
  handle_client_from :
      (rounds : List (Bool × Recv)) (p : List ℕ) (s : S)
      → NoNewline p
      → handle_client deliver rounds (p, s) ≡ feed deliver p (received rounds) s
  unfolding handle_client feed
  handle_client_from [] p s h = refl
  handle_client_from ((false, _) ∷ rounds) p s h = refl
  handle_client_from ((true, again) ∷ rounds) p s h = handle_client_from rounds p s h
  handle_client_from ((true, closed) ∷ rounds) p s h = refl
  handle_client_from ((true, bytes chunk) ∷ rounds) p s h =
      rw (receive-eq-feed deliver p chunk s h) (
        handle_client_from rounds (feed deliver p chunk s).0 (feed deliver p chunk s).1
          (feed-pending deliver p chunk s h)
        ∙ sym (feed-append deliver p chunk (received rounds) s))

  -- A client's connection, however its bytes are cut into chunks, interrupted by timeouts and ended,
  -- has the effect of reading the bytes that came in one at a time, a newline ending each line.
  pub handle_client-eq-feed :
      (rounds : List (Bool × Recv)) (s : S)
      → handle_client deliver rounds ([], s) ≡ feed deliver [] (received rounds) s
  handle_client-eq-feed rounds s = handle_client_from rounds [] s tt

-- A delivery that only writes the lines down, oldest first.
abbrev pub write_down : List ℕ → List (List ℕ) → List (List ℕ)
write_down line lines = lines ++ line ∷ []

-- The bytes of some lines, each with its newline.
abbrev pub unlines : List (List ℕ) → List ℕ
unlines [] = []
unlines (line ∷ lines) = line ++ newline ∷ unlines lines

unlines-append : (xs ys : List (List ℕ)) → unlines (xs ++ ys) ≡ unlines xs ++ unlines ys
unlines-append [] ys = refl
unlines-append (x ∷ xs) ys =
    rw (unlines-append xs ys) (sym (append_assoc x (newline ∷ unlines xs) (unlines ys)))

abbrev pub AllNoNewline : List (List ℕ) → Type 0
AllNoNewline [] = Unit {0}
AllNoNewline (line ∷ lines) = NoNewline line × AllNoNewline lines

AllNoNewline-append :
    (xs : List (List ℕ)) (l : List ℕ) → AllNoNewline xs → NoNewline l → AllNoNewline (xs ++ l ∷ [])
AllNoNewline-append [] l h n = (n, tt)
AllNoNewline-append (x ∷ xs) l h n = (h.0, AllNoNewline-append xs l h.1 n)

abbrev Recovers : List ℕ → List ℕ × List (List ℕ) → Type 0
Recovers total (p, lines) = (unlines lines ++ p ≡ total) × AllNoNewline lines × NoNewline p

close_line :
    (lines : List (List ℕ)) (p cs : List ℕ)
    → (unlines (lines ++ p ∷ []) ++ []) ++ cs ≡ (unlines lines ++ p) ++ newline ∷ cs
close_line lines p cs = simp (unlines-append, append_assoc, append-nil)

feed-Recovers :
    (p cs : List ℕ) (lines : List (List ℕ)) {total : List ℕ}
    → (unlines lines ++ p) ++ cs ≡ total
    → NoNewline p
    → AllNoNewline lines
    → Recovers total (feed write_down p cs lines)
unfolding feed
feed-Recovers p [] lines t n a = (sym (append-nil (unlines lines ++ p)) ∙ t, a, n)
feed-Recovers p (c ∷ cs) lines t n a = elim (Bool-cases (c == newline)) [
  | inl e ↦
      let same : c ≡ newline = ground arith in
      rw (e, feed)
        (feed-Recovers [] cs (lines ++ p ∷ [])
          (close_line lines p cs ∙ sym (ap (λ d. (unlines lines ++ p) ++ d ∷ cs) same) ∙ t) tt
          (AllNoNewline-append lines p a n))
  | inr e ↦
      rw (e, feed)
        (feed-Recovers (p ++ c ∷ []) cs lines
          (simp append_assoc (sym (append_assoc (unlines lines) p (c ∷ cs)) ∙ t))
          (NoNewline-append p c n e) a)
]

-- What came in is the delivered lines in order, each with its newline, and then the bytes that are
-- still pending; no delivered line and no pending text holds a newline.
pub stream_recovered :
    (rounds : List (Bool × Recv))
    → let (pending, lines) = handle_client write_down rounds ([], []) in
      (unlines lines ++ pending ≡ received rounds) × AllNoNewline lines × NoNewline pending
stream_recovered rounds =
    rw (handle_client-eq-feed write_down rounds [])
      (feed-Recovers [] (received rounds) [] refl tt tt)
