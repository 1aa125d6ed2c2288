-- ===== src/Guest/Frames/Laws.antt =====
-- A frame that WriteFrame of internal/protocol/protocol.go sent is what ReadLine reads.
use epoch.Base.{
  ℕ, zero, suc, ◌+◌, ◌-◌, ◌≤◌, ◌<◌, Bytes, newline, Read, joined, frame_reads, length-joined,
  String, Option, none, some, List, [], ◌∷◌, ◌++◌, length, length-append, length-snoc, length-drop,
  take, take-snoc, take-drop, drop, ltb, if-elim, Bool-cases, inl, inr, Result, ok, err, ◌≡◌, ◌≢◌,
  ap, ◌∙◌, arith,
}
use epoch.Guest.Frames.{
  FrameError, max_frame, read_more, read_line, fitting, Writer, write_all, write_frame, after_write,
}
use mathlib.Core.List.{append_assoc, append-nil}

read_more-joined :
    (limit : ℕ) (out b : Bytes) (gs : List Bytes) (f : Bytes) (rest : List Read)
    → joined out gs f ≡ b ++ newline
    → length b < limit
    → read_more limit out (frame_reads gs f rest) ≡ (ok b, rest)
unfolding read_more fitting
read_more-joined limit out b [] f rest whole fits = ground (
  arith,
  length-append out f,
  length-snoc b 10,
  ap length whole,
  ap (λ (w : Bytes). take (length w - 1) w) whole,
  ap (λ (n : ℕ). take (n - 1) (b ++ newline)) (length-snoc b 10),
  take-snoc b 10,
)
read_more-joined limit out b (g ∷ gs) f rest whole fits = ground (
  arith,
  length-append out g,
  length-joined (out ++ g) gs f,
  ap length whole,
  length-snoc b 10,
  read_more-joined limit (out ++ g) b gs f rest whole fits,
)

module _ {C : Type 0} (write : Writer C) where
  after_write_ends :
      (n : ℕ) (e : Option String) (c : C)
      (later : ℕ → C → Option (Result FrameError (Unit {0}) × C))
      → ((m : ℕ) (c' : C) → later (suc m) c' ≢ none)
      → after_write write ((n, e), c) later ≢ none
  unfolding after_write
  after_write_ends n (some e) c later h = λ p. ground (arith, p)
  after_write_ends zero none c later h = λ p. ground (arith, p)
  after_write_ends (suc n) none c later h = h n c

  write_all_ends :
      (fuel : ℕ) (b : Bytes) (c : C) → length b ≤ fuel → write_all write fuel b c ≢ none
  unfolding write_all
  write_all_ends fuel [] c h = λ p. ground (arith, p)
  write_all_ends zero (x ∷ xs) c h = absurd (omega arith)
  write_all_ends (suc fuel) (x ∷ xs) c h =
      after_write_ends (write (x ∷ xs) c).0.0 (write (x ∷ xs) c).0.1 (write (x ∷ xs) c).1 _
        (λ m c'. write_all_ends fuel (drop m xs) c' (omega (arith, length-drop m xs)))

  -- WriteFrame ends, whatever the connection does: its loop makes at most as many rounds as there are
  -- bytes to write.
  pub write_frame_ends : (b : Result String Bytes) (c : C) → write_frame write b c ≢ none
  unfolding write_frame
  write_frame_ends (err e) c = λ p. ground (arith, p)
  write_frame_ends (ok b) c =
      if-elim (λ o. o ≢ none) (ltb max_frame (length b + 1)) _ _ (λ _ p. ground (arith, p))
        (λ _. write_all_ends (length (b ++ newline)) (b ++ newline) c (omega arith))

  after_write-eq-ok :
      (n : ℕ) (e : Option String) (c : C)
      (later : ℕ → C → Option (Result FrameError (Unit {0}) × C)) {c' : C}
      → after_write write ((n, e), c) later ≡ some (ok tt, c')
      → later n c ≡ some (ok tt, c')
  unfolding after_write
  after_write-eq-ok n (some e) c later h = ground (arith, h)
  after_write-eq-ok zero none c later h = ground (arith, h)
  after_write-eq-ok (suc n) none c later h = h

  -- The bytes that the connection took so far, for a writer that takes the first ones of what it is given.
  abbrev pub IsStream : (C → Bytes) → Type 0
  IsStream sent = (b : Bytes) (c : C) → sent (write b c).1 ≡ sent c ++ take (write b c).0.0 b

  module _ (sent : C → Bytes) (stream : IsStream sent) where
    write_all-sent :
        (fuel : ℕ) (b : Bytes) (c : C) {c' : C}
        → write_all write fuel b c ≡ some (ok tt, c')
        → sent c' ≡ sent c ++ b
    unfolding write_all
    write_all-sent fuel [] c h = ground (arith, append-nil (sent c))
    write_all-sent zero (x ∷ xs) c h = ground (arith, h)
    write_all-sent (suc fuel) (x ∷ xs) c h =
        write_all-sent fuel (drop (write (x ∷ xs) c).0.0 (x ∷ xs)) (write (x ∷ xs) c).1
          (after_write-eq-ok (write (x ∷ xs) c).0.0 (write (x ∷ xs) c).0.1 (write (x ∷ xs) c).1 _ h)
        ∙ ap (λ (s : Bytes). s ++ drop (write (x ∷ xs) c).0.0 (x ∷ xs)) (stream (x ∷ xs) c)
        ∙ append_assoc (sent c) (take (write (x ∷ xs) c).0.0 (x ∷ xs))
            (drop (write (x ∷ xs) c).0.0 (x ∷ xs))
        ∙ ap (λ (s : Bytes). sent c ++ s) (take-drop (write (x ∷ xs) c).0.0 (x ∷ xs))

    -- A frame that WriteFrame sent arrived whole behind what the connection took before, however the
    -- writes were cut; and whoever reads it with ReadLine at the frame limit, however the reader cuts it,
    -- gets exactly its bytes and leaves what follows.
    pub write_frame-read_line :
        (b : Bytes) (c : C) {c' : C} (gs : List Bytes) (f : Bytes) (rest : List Read)
        → write_frame write (ok b) c ≡ some (ok tt, c')
        → joined [] gs f ≡ b ++ newline
        → (sent c' ≡ sent c ++ (b ++ newline))
          × (read_line max_frame (frame_reads gs f rest) ≡ (ok b, rest))
    unfolding write_frame read_line
    write_frame-read_line b c gs f rest h whole = elim (Bool-cases (ltb max_frame (length b + 1))) [
      | inl over ↦ absurd (ground (arith, over))
      | inr fits ↦ (
        write_all-sent (length (b ++ newline)) (b ++ newline) c (ground (arith, fits)),
        read_more-joined max_frame [] b gs f rest whole (ground arith),
      )
    ]
