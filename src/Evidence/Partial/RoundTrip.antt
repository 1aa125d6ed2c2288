-- ===== src/Evidence/Partial/RoundTrip.antt =====
-- What ReadPartial of internal/evidence/partial.go makes of a log of complete lines with a tail, and what
-- holds of the records that it returns from any input.
use epoch.Base.{
  Bytes, Read, at_eof, joined, frame_reads, length-joined, ℕ, suc, ◌+◌, ◌≤◌, true, none, List, [],
  ◌∷◌, ◌++◌, length, length-append, length-snoc, ltb, All, map, ◌≡◌, ap, ◌∙◌, arith,
}
use epoch.Evidence.{max_bytes, max_events}
use epoch.Evidence.Partial.{
  Syntax, Readout, max_frame, readout, at_end, after_line, within_quotas, read_from, read_partial,
}
use mathlib.Core.List.{append_assoc, append-nil}

-- A line of a log, as the fragments that fill the buffer and the one that ends it.
abbrev pub Frame : Type 0
Frame = List Bytes × Bytes

abbrev pub whole : Frame → Bytes
whole (gs, f) = joined [] gs f

abbrev pub log_reads : List Frame → Bytes → List Read
log_reads [] tail = at_eof tail ∷ []
log_reads ((gs, f) ∷ frames) tail = frame_reads gs f (log_reads frames tail)

abbrev pub log_size : List Frame → ℕ
log_size [] = 0
log_size (x ∷ xs) = length (whole x) + log_size xs

module _ (syntax : Syntax) where
  abbrev pub IsFrame : Frame → Type 0
  IsFrame x = (length (whole x) ≤ max_frame) × (syntax.valid (syntax.trim_space (whole x)) ≡ true)

  within_quotas_lem :
      (records : List Bytes) (consumed : ℕ) (line f : Bytes) (later : Readout)
      → consumed + length f ≤ max_bytes
      → length line + length f ≤ max_frame
      → within_quotas syntax records consumed line f later ≡ later
  unfolding within_quotas
  within_quotas_lem records consumed line f later h k = ground arith

  after_line_lem :
      (records : List Bytes) (line : Bytes) (later : Readout)
      → syntax.valid (syntax.trim_space line) ≡ true
      → suc (length records) ≤ max_events
      → after_line syntax records line later ≡ later
  unfolding after_line
  after_line_lem records line later h k =
      ground (arith, length-snoc records (syntax.trim_space line))

  -- `consumed` counts the bytes before `line`.
  read_frame :
      (records : List Bytes) (consumed : ℕ) (line : Bytes) (gs : List Bytes) (f : Bytes)
      (rest : List Read)
      → consumed + length (joined line gs f) ≤ max_bytes
      → length (joined line gs f) ≤ max_frame
      → syntax.valid (syntax.trim_space (joined line gs f)) ≡ true
      → suc (length records) ≤ max_events
      → read_from syntax records (consumed + length line) line (frame_reads gs f rest)
        ≡ read_from syntax
            (records ++ syntax.trim_space (joined line gs f) ∷ [])
            (consumed + length (joined line gs f))
            []
            rest
  unfolding read_from
  read_frame records consumed line [] f rest fits short valid few =
      within_quotas_lem records (consumed + length line) line f _
        (omega (arith, length-append line f)) (omega (arith, length-append line f))
      ∙ after_line_lem records (line ++ f) _ valid few
      ∙ ap (λ (n : ℕ). read_from syntax (records ++ syntax.trim_space (line ++ f) ∷ []) n [] rest)
          (omega (arith, length-append line f))
  read_frame records consumed line (g ∷ gs) f rest fits short valid few =
      within_quotas_lem records (consumed + length line) line g _
        (omega (arith, length-append line g, length-joined (line ++ g) gs f))
        (omega (arith, length-append line g, length-joined (line ++ g) gs f))
      ∙ ap (λ (n : ℕ). read_from syntax records n (line ++ g) (frame_reads gs f rest))
          (omega (arith, length-append line g))
      ∙ read_frame records consumed (line ++ g) gs f rest fits short valid few

  read_log :
      (records : List Bytes) (consumed : ℕ) (frames : List Frame) (tail : Bytes)
      → All IsFrame frames
      → length tail ≤ max_frame
      → consumed + log_size frames + length tail ≤ max_bytes
      → length records + length frames ≤ max_events
      → read_from syntax records consumed [] (log_reads frames tail) ≡ record {
        records = records ++ map (λ x. syntax.trim_space (whole x)) frames;
        partial = ltb 0 (length tail);
        error = none;
      }
  unfolding read_from at_end readout
  read_log records consumed [] tail each short fits few =
      within_quotas_lem records consumed [] tail _ (omega arith) (omega arith) ∙ simp append-nil
  read_log records consumed ((gs, f) ∷ frames) tail each short fits few =
      ap (λ (n : ℕ). read_from syntax records n [] (frame_reads gs f (log_reads frames tail)))
        (omega arith)
      ∙ read_frame records consumed [] gs f (log_reads frames tail) (omega arith) each.0.0 each.0.1
          (omega arith)
      ∙ read_log (records ++ syntax.trim_space (whole (gs, f)) ∷ [])
          (consumed + length (joined [] gs f)) frames tail each.1 short (omega arith)
          (omega (arith, length-snoc records (syntax.trim_space (whole (gs, f)))))
      ∙ simp append_assoc

  -- A log of at most 4096 complete lines, each of at most 1 MiB and valid JSON when trimmed, followed by a
  -- tail without a line feed, is read back without an error within the size limit: the records are the
  -- trimmed lines in their order, however the reader cuts them into fragments, and the log is reported
  -- partial exactly where the tail is not empty, whatever the tail holds.
  pub read_partial_log :
      (frames : List Frame) (tail : Bytes)
      → All IsFrame frames
      → length tail ≤ max_frame
      → log_size frames + length tail ≤ max_bytes
      → length frames ≤ max_events
      → read_partial syntax (log_reads frames tail) ≡ record {
        records = map (λ x. syntax.trim_space (whole x)) frames;
        partial = ltb 0 (length tail);
        error = none;
      }
  unfolding read_partial
  read_partial_log frames tail each short fits few =
      read_log [] 0 frames tail each short (omega arith) (omega arith)
