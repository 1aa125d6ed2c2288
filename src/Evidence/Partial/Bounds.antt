-- ===== src/Evidence/Partial/Bounds.antt =====
-- What holds of the records that ReadPartial of internal/evidence/partial.go returns, from any input.
use epoch.Base.{
  Bytes, Read, ends_line, fills_buffer, at_eof, read_failed, ℕ, suc, ◌+◌, not, some, ltb, if-elim,
  ◌≤◌, true, none, List, [], ◌∷◌, ◌++◌, length, length-snoc, All, All-append, ◌≡◌, ◌≢◌, ◌⊎◌, inl,
  inr, refl, arith,
}
use epoch.Evidence.{max_events}
use epoch.Evidence.Partial.{
  Syntax, PartialError, invalid_record, too_many_records, reader_failed, Readout, readout, at_end,
  after_line, within_quotas, read_from, read_partial,
}

module _ (syntax : Syntax) where
  abbrev pub AreValid : List Bytes → Type 0
  AreValid = All (λ r. syntax.valid r ≡ true)

  -- The records are valid and few, and an error goes with a partial log.
  pub record IsSound (out : Readout) : Type 0 where
    pub valid : AreValid out.records
    pub few : length out.records ≤ suc max_events
    pub bounded : (out.error ≢ none) ⊎ (length out.records ≤ max_events)
    pub reported : (out.partial ≡ true) ⊎ (out.error ≡ none)

  at_end-IsSound :
      (records : List Bytes) (line : Bytes)
      → AreValid records
      → length records ≤ max_events
      → IsSound (at_end records line)
  unfolding at_end readout
  at_end-IsSound records line h k = record {
    valid = h;
    few = omega arith;
    bounded = inr k;
    reported = inr refl;
  }

  stopped-IsSound :
      (records : List Bytes) (e : PartialError)
      → AreValid records
      → length records ≤ suc max_events
      → IsSound (readout records true (some e))
  unfolding readout
  stopped-IsSound records e h k = record {
    valid = h;
    few = k;
    bounded = inl (λ p. ground (arith, p));
    reported = inl refl;
  }

  within_quotas-IsSound :
      (records : List Bytes) (consumed : ℕ) (line f : Bytes) (later : Readout)
      → AreValid records
      → length records ≤ max_events
      → IsSound later
      → IsSound (within_quotas syntax records consumed line f later)
  unfolding within_quotas readout
  within_quotas-IsSound records consumed line f later h k sound = ground arith

  -- The later rounds are sound wherever the round goes on.
  after_line-IsSound :
      (records : List Bytes) (line : Bytes) (later : Readout)
      → AreValid records
      → length records ≤ max_events
      → (syntax.valid (syntax.trim_space line) ≡ true
          → suc (length records) ≤ max_events
          → IsSound later)
      → IsSound (after_line syntax records line later)
  unfolding after_line readout
  after_line-IsSound records line later h k sound =
      if-elim IsSound (not (syntax.valid (syntax.trim_space line))) _ _
        (λ _. stopped-IsSound records invalid_record h (omega arith))
        (λ fine.
          if-elim IsSound (ltb max_events (length (records ++ syntax.trim_space line ∷ []))) _ _
            (λ _.
              stopped-IsSound (records ++ syntax.trim_space line ∷ []) too_many_records
                (All-append _ records _ h (ground arith, tt))
                (omega (arith, length-snoc records (syntax.trim_space line))))
            (λ room.
              sound (ground arith) (ground (arith, length-snoc records (syntax.trim_space line)))))

  read_from-IsSound :
      (records : List Bytes) (consumed : ℕ) (line : Bytes) (reads : List Read)
      → AreValid records
      → length records ≤ max_events
      → IsSound (read_from syntax records consumed line reads)
  unfolding read_from readout
  read_from-IsSound records consumed line [] h k = at_end-IsSound records line h k
  read_from-IsSound records consumed line (ends_line f ∷ rest) h k =
      within_quotas-IsSound records consumed line f _ h k (
        after_line-IsSound records (line ++ f) _ h k (λ v few.
          read_from-IsSound (records ++ syntax.trim_space (line ++ f) ∷ []) (consumed + length f) []
            rest (All-append _ records _ h (v, tt))
            (omega (arith, length-snoc records (syntax.trim_space (line ++ f))))))
  read_from-IsSound records consumed line (fills_buffer f ∷ rest) h k =
      within_quotas-IsSound records consumed line f _ h k
        (read_from-IsSound records (consumed + length f) (line ++ f) rest h k)
  read_from-IsSound records consumed line (at_eof f ∷ rest) h k =
      within_quotas-IsSound records consumed line f _ h k (at_end-IsSound records (line ++ f) h k)
  read_from-IsSound records consumed line (read_failed f e ∷ rest) h k =
      within_quotas-IsSound records consumed line f _ h k
        (stopped-IsSound records (reader_failed e) h (omega arith))

  -- Whatever the reader delivers, every record that ReadPartial returns is valid JSON, a result without an
  -- error has at most 4096 of them and any result at most one more, and an error is never reported with
  -- a log that is not partial.
  pub read_partial-IsSound : (reads : List Read) → IsSound (read_partial syntax reads)
  unfolding read_partial
  read_partial-IsSound reads = read_from-IsSound [] 0 [] reads tt (omega arith)
