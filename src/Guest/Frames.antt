-- ===== src/Guest/Frames.antt =====
-- ReadLine and WriteFrame of internal/protocol/protocol.go: frames end with a line feed.
pub mod Laws
use epoch.Base.{
  ℕ, zero, suc, ◌+◌, ◌-◌, ◌*◌, Bytes, newline, Read, ends_line, fills_buffer, at_eof, read_failed,
  String, Option, none, some, List, [], ◌∷◌, ◌++◌, length, take, drop, ltb, ◌==◌, if◌then◌else◌,
  Result, ok, err,
}

pub data FrameError : Type 0 where
  frame_quota_exceeded unexpected_eof end_of_input short_write : FrameError
  not_marshalled transport_failed : String → FrameError

-- MaxFrame
abbrev pub max_frame : ℕ
max_frame = 1048576

-- errors.Is(err, io.EOF)
at_end : Bytes → Result FrameError Bytes
at_end [] = err end_of_input
at_end (x ∷ xs) = err unexpected_eof

-- The quota test on a fragment, before it is appended.
fitting :
    ℕ
    → Bytes
    → Bytes
    → Result FrameError Bytes × List Read
    → List Read
    → Result FrameError Bytes × List Read
fitting limit out part later rest =
    if ltb limit (length out + length part) then (err frame_quota_exceeded, rest) else later

-- The loop of ReadLine, with the bytes so far; it returns what the reader delivers after it too.
unfoldable pub read_more : ℕ → Bytes → List Read → Result FrameError Bytes × List Read
unfolding fitting at_end
read_more limit out [] = (at_end out, [])
read_more limit out (ends_line part ∷ rest) =
    fitting limit out part (ok (take (length (out ++ part) - 1) (out ++ part)), rest) rest
read_more limit out (fills_buffer part ∷ rest) =
    fitting limit out part (read_more limit (out ++ part) rest) rest
read_more limit out (at_eof part ∷ rest) = fitting limit out part (at_end (out ++ part), rest) rest
read_more limit out (read_failed part e ∷ rest) =
    fitting limit out part (err (transport_failed e), rest) rest

-- ReadLine
unfoldable pub read_line : ℕ → List Read → Result FrameError Bytes × List Read
unfolding read_more
read_line limit reads = read_more limit [] reads

-- io.Writer: Write on a connection in the state `C`.
abbrev pub Writer : Type 0 → Type 0
Writer C = Bytes → C → (ℕ × Option String) × C

module _ {C : Type 0} (write : Writer C) where
  -- The end of a round of the loop of WriteFrame, with what the next rounds do.
  after_write :
      (ℕ × Option String) × C
      → (ℕ → C → Option (Result FrameError (Unit {0}) × C))
      → Option (Result FrameError (Unit {0}) × C)
  after_write ((n, some e), c) later = some (err (transport_failed e), c)
  after_write ((zero, none), c) later = some (err short_write, c)
  after_write ((suc n, none), c) later = later (suc n) c

  -- The loop of WriteFrame; `none` where the fuel ran out.
  unfoldable pub write_all : ℕ → Bytes → C → Option (Result FrameError (Unit {0}) × C)
  unfolding after_write
  write_all fuel [] c = some (ok tt, c)
  write_all zero (x ∷ xs) c = none
  write_all (suc fuel) (x ∷ xs) c =
      after_write (write (x ∷ xs) c) (λ n c'. write_all fuel (drop n (x ∷ xs)) c')

  -- WriteFrame, on what json.Marshal gives
  unfoldable pub write_frame : Result String Bytes → C → Option (Result FrameError (Unit {0}) × C)
  unfolding write_all
  write_frame (err e) c = some (err (not_marshalled e), c)
  write_frame (ok b) c =
      if ltb max_frame (length b + 1)
      then some (err frame_quota_exceeded, c)
      else write_all (length (b ++ newline)) (b ++ newline) c
