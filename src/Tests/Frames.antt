-- ===== src/Tests/Frames.antt =====
-- The theorems on frames, for a connection that takes three bytes at a time.
use epoch.Base.{Bytes, newline, none, [], ◌∷◌, ◌++◌, length, take, ok, ◌≡◌, ◌≢◌, refl, frame_reads}
use epoch.Guest.Frames.{Writer, max_frame, write_frame, read_line}
use epoch.Guest.Frames.Laws.{write_frame_ends, write_frame-read_line}

-- What the connection took is its state.
abbrev by_three : Writer Bytes
by_three b c = ((length (take 3 b), none), c ++ take 3 b)

abbrev message : Bytes
message = 123 ∷ 34 ∷ 97 ∷ 34 ∷ 125 ∷ []

write_frame_ends_example : write_frame by_three (ok message) [] ≢ none
write_frame_ends_example = write_frame_ends by_three (ok message) []

by_three_takes : (b c : Bytes) → (by_three b c).1 ≡ c ++ take (by_three b c).0.0 b
by_three_takes [] c = refl
by_three_takes (x ∷ []) c = refl
by_three_takes (x ∷ y ∷ []) c = refl
by_three_takes (x ∷ y ∷ z ∷ b) c = refl

write_frame-read_line_example :
    (message ++ newline ≡ [] ++ (message ++ newline))
    × (read_line max_frame (frame_reads ((123 ∷ []) ∷ []) (34 ∷ 97 ∷ 34 ∷ 125 ∷ 10 ∷ []) [])
        ≡ (ok message, []))
unfolding write_frame
write_frame-read_line_example =
    write_frame-read_line by_three (λ c. c) by_three_takes message [] ((123 ∷ []) ∷ [])
      (34 ∷ 97 ∷ 34 ∷ 125 ∷ 10 ∷ []) [] refl refl
