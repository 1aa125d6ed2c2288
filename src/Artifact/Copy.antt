-- ===== src/Artifact/Copy.antt =====
-- copyContext of internal/artifact/artifact.go into a hash, which takes every byte.
use epoch.Base.{Bytes, String, List, [], ◌∷◌, ◌++◌, Result, ok, err}

-- A round of the loop: the context has ended, or Read returns some bytes and how it stands.
pub data Chunk : Type 0 where
  cancelled : String → Chunk
  more : Bytes → Chunk
  last : Bytes → Chunk
  broken : Bytes → String → Chunk

pub data CopyError : Type 0 where
  context_ended read_failed : String → CopyError

-- The loop, with the bytes that were written; after the reads of a list comes the end of the file.
unfoldable pub copy_chunks : Bytes → List Chunk → Result CopyError Bytes
copy_chunks out [] = ok out
copy_chunks out (cancelled e ∷ rest) = err (context_ended e)
copy_chunks out (more b ∷ rest) = copy_chunks (out ++ b) rest
copy_chunks out (last b ∷ rest) = ok (out ++ b)
copy_chunks out (broken b e ∷ rest) = err (read_failed e)
