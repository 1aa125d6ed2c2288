-- ===== src/Evidence/Quota.antt =====
-- The bounds of the evidence: the sections of the recorder's methods, in any order in which concurrent
-- callers take the lock of internal/evidence/evidence.go.
use epoch.Base.{
  Bytes, ℕ, suc, ◌-◌, ◌≤◌, ◌<◌, ◌^◌, ◌⊎◌, inl, inr, Option, none, some, String, List, [], ◌∷◌, All,
  length, length-snoc, ℤ, pos, ◌+ℤ◌, ◌≤ℤ◌, ◌==◌, if-elim, wrap64, wrap64-eq, ok, ltb, ◌++◌, ◌≡◌,
  ◌≢◌, arith, Bool-cases, false,
}
use epoch.Evidence.{
  Failure, Storage, Recorder, Held, quota, max_events, max_bytes, report_reserve, metadata_reserve,
  fail_locked, over_quota, spend, next_sequence, reserve, after_append, drain,
}
use epoch.Evidence.Records.{atomic_bytes, final}

-- One section: a write to a log, the numbering of an event, and of SaveRaw the reservation, the file that
-- it replaces outside the lock, and the failure that it notes.
pub data Section : Type 0 where
  drained : String → Bytes → Section
  numbered : Section
  reserved : Bytes → Section
  replaced : String → Bytes → Section
  noted : Failure → Section

-- A slice in memory is far shorter than this.
abbrev pub IsInMemory : Section → Type 0
IsInMemory (drained name p) = length p < 2 ^ 62
IsInMemory (reserved p) = length p < 2 ^ 62
IsInMemory _ = Unit

-- io.Writer: a write takes at most the bytes that it is given.
abbrev pub IsWriter : {W : Type 0} → Storage W → Type 0
IsWriter {W} storage =
    (name : String) (p : Bytes) (w : W) → (storage.append name p w).0.0 ≤ length p

-- How often cancel has been called, by the recorder's error.
abbrev pub cancels_due : Option Failure → ℕ
cancels_due none = 0
cancels_due (some e) = 1

-- The bytes and the events are within their limits, and cancel was called once where there is an error
-- and never where there is none.
pub record IsWithin (r : Recorder) : Type 0 where
  pub natural : pos 0 ≤ℤ r.used
  pub bytes : r.used ≤ℤ pos quota
  pub events : r.seq ≤ max_events
  pub cancelled : r.cancels ≡ cancels_due r.error

fail_locked-IsWithin : (e : Failure) (r : Recorder) → IsWithin r → IsWithin (fail_locked e r)
unfolding fail_locked
fail_locked-IsWithin e r h = ground arith

-- The sum that is compared with the quota does not wrap around.
sum_exact :
    (used : ℤ) (n : ℕ)
    → pos 0 ≤ℤ used
    → used ≤ℤ pos quota
    → n < 2 ^ 62
    → wrap64 (used +ℤ pos n) ≡ used +ℤ pos n
unfolding ◌+ℤ◌
sum_exact used n h k m = wrap64-eq (used +ℤ pos n) (ground arith, ground arith)

spend-IsWithin :
    (p : Bytes) (n : ℕ) (r : Recorder)
    → IsWithin r
    → length p < 2 ^ 62
    → n ≤ length p
    → over_quota p r ≡ false
    → IsWithin (spend n r)
unfolding spend over_quota ◌+ℤ◌
spend-IsWithin p n r h m le fits = ground (
  arith,
  sum_exact r.used n h.natural h.bytes (omega arith),
  sum_exact r.used (length p) h.natural h.bytes m,
)

next_sequence-IsWithin : (r : Recorder) → IsWithin r → IsWithin (next_sequence r).1
unfolding next_sequence
next_sequence-IsWithin r h = ground (arith, fail_locked-IsWithin Failure.event_quota_exceeded r h)

reserve-IsWithin :
    (p : Bytes) (r : Recorder) → length p < 2 ^ 62 → IsWithin r → IsWithin (reserve p r).1
unfolding reserve
reserve-IsWithin p r m h = ground (
  arith,
  fail_locked-IsWithin Failure.quota_exceeded r h,
  spend-IsWithin p (length p) r h m (omega arith),
)

module _ {W : Type 0} (storage : Storage W) where
  unfoldable pub run_section : Section → Held W → Held W
  unfolding drain next_sequence reserve atomic_bytes fail_locked
  run_section (drained name p) s = drain storage name p s
  run_section numbered s = record s { recorder = (next_sequence s.recorder).1 }
  run_section (reserved p) s = record s { recorder = (reserve p s.recorder).1 }
  run_section (replaced name p) s = record s { world = (atomic_bytes storage name p s.world).1 }
  run_section (noted e) s = record s { recorder = fail_locked e s.recorder }

  unfoldable pub run_sections : List Section → Held W → Held W
  unfolding run_section
  run_sections [] s = s
  run_sections (x ∷ xs) s = run_sections xs (run_section x s)

module _ {W : Type 0} (storage : Storage W) (writer : IsWriter storage) where
  after_append-IsWithin :
      (p : Bytes) (out : (ℕ × Option String) × W) (r : Recorder)
      → length p < 2 ^ 62
      → out.0.0 ≤ length p
      → over_quota p r ≡ false
      → IsWithin r
      → IsWithin (after_append storage p out r).recorder
  unfolding after_append
  after_append-IsWithin p ((n, some e), w) r m le fits h =
      fail_locked-IsWithin _ _ (spend-IsWithin p n r h m le fits)
  after_append-IsWithin p ((n, none), w) r m le fits h =
      if-elim IsWithin (n == length p) _ _ (λ _. spend-IsWithin p n r h m le fits)
        (λ _. fail_locked-IsWithin _ _ (spend-IsWithin p n r h m le fits))

  drain-IsWithin :
      (name : String) (p : Bytes) (s : Held W)
      → length p < 2 ^ 62
      → IsWithin s.recorder
      → IsWithin (drain storage name p s).recorder
  unfolding drain
  drain-IsWithin name p s m h = ground (
    arith,
    fail_locked-IsWithin Failure.quota_exceeded s.recorder h,
    after_append-IsWithin p (storage.append name p s.world) s.recorder m (writer name p s.world),
  )

  run_section-IsWithin :
      (x : Section) (s : Held W)
      → IsInMemory x
      → IsWithin s.recorder
      → IsWithin (run_section storage x s).recorder
  unfolding run_section
  run_section-IsWithin (drained name p) s m h = drain-IsWithin name p s m h
  run_section-IsWithin numbered s m h = next_sequence-IsWithin s.recorder h
  run_section-IsWithin (reserved p) s m h = reserve-IsWithin p s.recorder m h
  run_section-IsWithin (replaced name p) s m h = h
  run_section-IsWithin (noted e) s m h = fail_locked-IsWithin e s.recorder h

  run_sections-IsWithin :
      (xs : List Section) (s : Held W)
      → All IsInMemory xs
      → IsWithin s.recorder
      → IsWithin (run_sections storage xs s).recorder
  unfolding run_sections
  run_sections-IsWithin [] s m h = h
  run_sections-IsWithin (x ∷ xs) s m h =
      run_sections-IsWithin xs (run_section storage x s) m.1 (run_section-IsWithin x s m.0 h)

  final_fits :
      (b : Bytes) (s : Held W)
      → IsWithin s.recorder
      → ((final storage (ok b) s).0 ≢ none)
        ⊎ (s.recorder.used +ℤ pos (suc (length b)) ≤ℤ pos (max_bytes - metadata_reserve))
  unfolding final ◌+ℤ◌
  final_fits b s h = elim (Bool-cases (ltb report_reserve (length (b ++ 10 ∷ [])))) [
    | inl over ↦ inl (ground arith)
    | inr fits ↦ inr (ground (arith, length-snoc b 10))
  ]

  -- Whatever sections of the recorder's methods run, in whatever order: the bytes that are accounted stay
  -- within the quota and the events within their number, the run is cancelled once at the first failure and
  -- never without one, and a final report that is saved fits, with the other evidence, into the limit
  -- that leaves room for the metadata.
  pub evidence_bounded :
      (xs : List Section) (s : Held W) (b : Bytes)
      → All IsInMemory xs
      → IsWithin s.recorder
      → IsWithin (run_sections storage xs s).recorder
        × (((final storage (ok b) (run_sections storage xs s)).0 ≢ none)
            ⊎ ((run_sections storage xs s).recorder.used +ℤ pos (suc (length b))
                ≤ℤ pos (max_bytes - metadata_reserve)))
  evidence_bounded xs s b m h = (
    run_sections-IsWithin xs s m h,
    final_fits b (run_sections storage xs s) (run_sections-IsWithin xs s m h),
  )
