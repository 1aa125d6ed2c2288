-- ===== src/Base/Reading.antt =====
-- bufio.Reader.ReadSlice('\n'), as internal/evidence/partial.go and internal/protocol/protocol.go call it.
use Prim.Native.Nat.{ℕ, ◌≤◌}
use Prim.Native.String.{String}
use mathlib.Core.List.{List, [], ◌∷◌, ◌++◌}
use native.Mathlib.Omega.{arith}
use epoch.Base.Lists.{length, length-append}

-- A byte slice: its bytes.
abbrev pub Bytes : Type 0
Bytes = List ℕ

abbrev pub newline : Bytes
newline = 10 ∷ []

-- What one call returns: a fragment that ends a line, one that fills the buffer, the rest at the end of the
-- input, and a fragment with another error. After the last of a list comes the end of the input.
pub data Read : Type 0 where
  ends_line : Bytes → Read
  fills_buffer : Bytes → Read
  at_eof : Bytes → Read
  read_failed : Bytes → String → Read

-- A line after what is already there, from the fragments that fill the buffer and the one that ends it.
abbrev pub joined : Bytes → List Bytes → Bytes → Bytes
joined line [] f = line ++ f
joined line (g ∷ gs) f = joined (line ++ g) gs f

-- What the calls return on a line, and then on the rest.
abbrev pub frame_reads : List Bytes → Bytes → List Read → List Read
frame_reads [] f rest = ends_line f ∷ rest
frame_reads (g ∷ gs) f rest = fills_buffer g ∷ frame_reads gs f rest

pub length-joined :
    (line : Bytes) (gs : List Bytes) (f : Bytes) → length line ≤ length (joined line gs f)
length-joined line [] f = omega (arith, length-append line f)
length-joined line (g ∷ gs) f = omega (arith, length-append line g, length-joined (line ++ g) gs f)
