-- ===== src/Tracking/Lines.antt =====
-- The receive loop of TrackingServer::handle_client in src/tracking/tracking_server.cpp: bytes
-- arrive in chunks of any size, and every line that a newline ends is delivered in order. What the
-- delivery of a line does is a parameter here; Tracking/Server.antt gives it.
pub mod Chunks
use mavcam.Prelude.{
  ℕ, zero, suc, ◌≡◌, refl, inl, inr, Bool, true, false, Option, none, some, List, [], ◌∷◌, ◌++◌,
  ◌==◌, length, Bool-cases,
}

abbrev pub newline : ℕ
newline = 10

-- `pending.find('\n')`, with the line before it and what `erase(0, pos + 1)` leaves.
abbrev pub after_byte : ℕ → Option (List ℕ × List ℕ) → Option (List ℕ × List ℕ)
after_byte c none = none
after_byte c (some (line, rest)) = some (c ∷ line, rest)

unfoldable pub split_line : List ℕ → Option (List ℕ × List ℕ)
split_line [] = none
split_line (c ∷ cs) = elim (c == newline) [
  | true ↦ some ([], cs)
  | false ↦ after_byte c (split_line cs)
]

-- What `recv` returns: bytes, a timeout (EAGAIN), or the end of the connection.
pub data Recv : Type 0 where
  bytes : List ℕ → Recv
  again closed : Recv

module _ {S : Type 0} (deliver : List ℕ → S → S) where
  -- The inner loop, with fuel: it hands over each complete line and keeps the rest.
  unfoldable pub consume : ℕ → List ℕ → S → List ℕ × S
  consume zero pending s = (pending, s)
  consume (suc fuel) pending s = elim (split_line pending) [
    | none ↦ (pending, s)
    | some (line, rest) ↦ consume fuel rest (deliver line s)
  ]

  -- One chunk: `pending.append`, then the inner loop.
  unfoldable pub receive : List ℕ → List ℕ × S → List ℕ × S
  receive chunk (pending, s) = consume (suc (length (pending ++ chunk))) (pending ++ chunk) s

  -- The outer loop, over what `_running` and `recv` give in each round. It ends when the server
  -- stops or the connection does.
  unfoldable pub handle_client : List (Bool × Recv) → List ℕ × S → List ℕ × S
  handle_client [] c = c
  handle_client ((false, _) ∷ rounds) c = c
  handle_client ((true, again) ∷ rounds) c = handle_client rounds c
  handle_client ((true, closed) ∷ rounds) c = c
  handle_client ((true, bytes chunk) ∷ rounds) c = handle_client rounds (receive chunk c)

  -- The description of the loop: bytes are read one at a time, and a newline ends a line.
  pub feed : List ℕ → List ℕ → S → List ℕ × S
  feed line [] s = (line, s)
  feed line (c ∷ cs) s = elim (c == newline) [
    | true ↦ feed [] cs (deliver line s)
    | false ↦ feed (line ++ c ∷ []) cs s
  ]

  pub feed-append :
      (line xs ys : List ℕ) (s : S)
      → feed line (xs ++ ys) s ≡ feed (feed line xs s).0 ys (feed line xs s).1
  unfolding feed
  feed-append line [] ys s = refl
  feed-append line (x ∷ xs) ys s = elim (Bool-cases (x == newline)) [
    | inl e ↦ rw (e, feed) (feed-append [] xs ys (deliver line s))
    | inr e ↦ rw (e, feed) (feed-append (line ++ x ∷ []) xs ys s)
  ]
