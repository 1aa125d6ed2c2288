-- ===== src/Evidence/Partial.antt =====
-- ReadPartial of internal/evidence/partial.go, over what the reader's ReadSlice returns.
pub mod RoundTrip
pub mod Bounds
use epoch.Base.{
  Bytes, Read, ends_line, fills_buffer, at_eof, read_failed, ℕ, ◌+◌, Bool, true, false, not, Option,
  none, some, List, [], ◌∷◌, ◌++◌, length, ltb, String, if◌then◌else◌,
}
use epoch.Evidence.{max_bytes, max_events}

pub data PartialError : Type 0 where
  exceeds_quota frame_exceeds_quota invalid_record too_many_records : PartialError
  reader_failed : String → PartialError

-- bytes.TrimSpace and json.Valid
pub record Syntax : Type 0 where
  pub trim_space : Bytes → Bytes
  pub valid : Bytes → Bool

-- (records, partial, err)
pub record Readout : Type 0 where
  pub records : List Bytes
  pub partial : Bool
  pub error : Option PartialError

abbrev pub max_frame : ℕ
max_frame = 1048576

readout : List Bytes → Bool → Option PartialError → Readout
readout records partial e = record { records = records; partial = partial; error = e }

-- e == io.EOF
at_end : List Bytes → Bytes → Readout
unfolding readout
at_end records line = readout records (ltb 0 (length line)) none

module _ (syntax : Syntax) where
  -- The end of a round of the outer loop, with what the next rounds give.
  after_line : List Bytes → Bytes → Readout → Readout
  unfolding readout
  after_line records line later =
      if not (syntax.valid (syntax.trim_space line))
      then readout records true (some invalid_record)
      else if ltb max_events (length (records ++ syntax.trim_space line ∷ []))
      then readout (records ++ syntax.trim_space line ∷ []) true (some too_many_records)
      else later

  -- The two quota tests on a fragment, before it is appended to the line.
  within_quotas : List Bytes → ℕ → Bytes → Bytes → Readout → Readout
  unfolding readout
  within_quotas records consumed line fragment later =
      if ltb max_bytes (consumed + length fragment)
      then readout records true (some exceeds_quota)
      else if ltb max_frame (length line + length fragment)
      then readout records true (some frame_exceeds_quota)
      else later

  -- Both loops: the records, the bytes consumed and the line so far.
  unfoldable pub read_from : List Bytes → ℕ → Bytes → List Read → Readout
  unfolding after_line within_quotas readout at_end
  read_from records consumed line [] = at_end records line
  read_from records consumed line (ends_line f ∷ rest) =
      let later =
        read_from (records ++ syntax.trim_space (line ++ f) ∷ []) (consumed + length f) [] rest in
      within_quotas records consumed line f (after_line records (line ++ f) later)
  read_from records consumed line (fills_buffer f ∷ rest) =
      within_quotas records consumed line f
        (read_from records (consumed + length f) (line ++ f) rest)
  read_from records consumed line (at_eof f ∷ rest) =
      within_quotas records consumed line f (at_end records (line ++ f))
  read_from records consumed line (read_failed f e ∷ rest) =
      within_quotas records consumed line f (readout records true (some (reader_failed e)))

  unfoldable pub read_partial : List Read → Readout
  unfolding read_from
  read_partial reads = read_from [] 0 [] reads
