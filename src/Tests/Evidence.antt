-- ===== src/Tests/Evidence.antt =====
-- The theorems on the evidence, for a disk that takes every byte, and for a small log.
use epoch.Base.{
  suc, ◌+◌, ◌-◌, true, none, some, List, [], ◌∷◌, length, map, ltb, pos, ◌+ℤ◌, ◌≤ℤ◌, ok, ◌≡◌, ◌≢◌,
  ◌⊎◌, refl, arith, ℕ,
}
use epoch.Evidence.{Storage, Held, quota_exceeded, short_write, max_bytes, metadata_reserve, drain}
use epoch.Evidence.Quota.{
  Section, drained, numbered, reserved, replaced, noted, IsWithin, run_sections, evidence_bounded,
}
use epoch.Evidence.Records.{Marshal, event, clocks, action, save, save_raw, final}
use epoch.Evidence.Records.Sticky.{IsRefused, sticky_failure}
use epoch.Evidence.Partial.{Syntax, read_partial}
use epoch.Evidence.Partial.RoundTrip.{Frame, whole, log_reads, read_partial_log}
use epoch.Evidence.Partial.Bounds.{IsSound, read_partial-IsSound}

-- The world counts the bytes.
abbrev disk : Storage ℕ
disk = record {
  base = λ name. name;
  create = λ name w. (none, w);
  append = λ name p w. ((length p, none), w + length p);
  sync = λ name w. (none, w);
  close = λ name w. (none, w);
  is_json = λ p. true;
  atomic_write = λ name p w. (none, w + length p);
  monotonic = λ w. pos w;
  utc = λ w. pos w;
}

abbrev fresh : Held ℕ
fresh = record {
  recorder = record { start = pos 0; used = pos 0; seq = 0; error = none; cancels = 0; files = [] };
  world = 0;
}

-- An event and a file, while the serial console is written and the file is not replaced.
abbrev sections : List Section
sections =
    numbered
    ∷ reserved (91 ∷ 93 ∷ [])
    ∷ drained "serial.log" (65 ∷ 66 ∷ 10 ∷ [])
    ∷ drained "events.ndjson" (123 ∷ 125 ∷ 10 ∷ [])
    ∷ replaced "config.json" (91 ∷ 93 ∷ [])
    ∷ noted short_write
    ∷ []

evidence_bounded_example :
    IsWithin (run_sections disk sections fresh).recorder
    × (((final disk (ok (123 ∷ 125 ∷ [])) (run_sections disk sections fresh)).0 ≢ none)
        ⊎ ((run_sections disk sections fresh).recorder.used
              +ℤ pos (suc (length {A = ℕ} (123 ∷ 125 ∷ [])))
            ≤ℤ pos (max_bytes - metadata_reserve)))
evidence_bounded_example =
    evidence_bounded disk (λ name p w. omega arith) sections fresh (123 ∷ 125 ∷ []) (omega arith)
      (record {
        natural = omega arith;
        bytes = omega arith;
        events = omega arith;
        cancelled = refl;
      })

abbrev stuck : Held ℕ
stuck = record fresh {
  recorder = record fresh.recorder { error = some quota_exceeded; cancels = 1 };
}

abbrev marshal : Marshal ℕ
marshal = record {
  event = λ e. ok (e.sequence ∷ []);
  compact = λ v. ok (v ∷ []);
  indented = λ v. ok (v ∷ []);
}

sticky_failure_example :
    (drain disk "serial.log" (65 ∷ []) stuck ≡ stuck)
    × IsRefused stuck (event disk marshal "boot" "vmm_started" 7 stuck)
    × IsRefused stuck (clocks disk marshal 7 stuck)
    × IsRefused stuck (action disk marshal 7 stuck)
    × IsRefused stuck (save disk "serial.log" (ok (48 ∷ [])) stuck)
    × IsRefused stuck (save_raw disk "serial.log" (65 ∷ []) stuck)
    × ((final disk (ok (48 ∷ [])) stuck).0
        ≡ (final disk
            (ok (48 ∷ []))
            (record stuck { recorder = record stuck.recorder { error = none } })).0)
    × ((final disk (ok (48 ∷ [])) stuck).1.world
        ≡ (final disk
            (ok (48 ∷ []))
            (record stuck { recorder = record stuck.recorder { error = none } })).1.world)
sticky_failure_example =
    sticky_failure disk marshal stuck {e = quota_exceeded} refl "serial.log" "boot" "vmm_started"
      (65 ∷ []) (ok (48 ∷ [])) 7

abbrev syntax : Syntax
syntax = record { trim_space = λ b. b; valid = λ b. ltb 0 (length b) }

-- A line in two fragments, and one in a single fragment.
abbrev frames : List Frame
frames = ((123 ∷ []) ∷ [], 125 ∷ 10 ∷ []) ∷ ([], 123 ∷ 125 ∷ 10 ∷ []) ∷ []

read_partial_log_example : read_partial syntax (log_reads frames (123 ∷ [])) ≡ record {
  records = map (λ x. syntax.trim_space (whole x)) frames;
  partial = ltb 0 (length {A = ℕ} (123 ∷ []));
  error = none;
}
read_partial_log_example =
    read_partial_log syntax frames (123 ∷ []) ((omega arith, refl), ((omega arith, refl), tt))
      (omega arith) (omega arith) (omega arith)

read_partial-IsSound_example : IsSound syntax (read_partial syntax (log_reads frames (123 ∷ [])))
read_partial-IsSound_example = read_partial-IsSound syntax (log_reads frames (123 ∷ []))
