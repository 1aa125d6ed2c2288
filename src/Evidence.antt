-- ===== src/Evidence.antt =====
-- internal/evidence/evidence.go: the recorder of a run. Its state, and the sections of its methods that
-- run under its lock; Records has the methods, Partial is partial.go.
pub mod Quota
pub mod Records
pub mod Partial
use epoch.Base.{
  ℕ, suc, Bytes, String, Bool, not, Option, none, some, List, length, ℤ, pos, ◌+ℤ◌, leb_ℤ, leb,
  ◌==◌, wrap64, if◌then◌else◌, Result, ok, err,
}

-- MaxBytes, ReportReserve, MetadataReserve: 8 << 20, 2 << 20 and 64 << 10
abbrev pub max_bytes : ℕ
max_bytes = 8388608

abbrev pub report_reserve : ℕ
report_reserve = 2097152

abbrev pub metadata_reserve : ℕ
metadata_reserve = 65536

abbrev pub max_events : ℕ
max_events = 4096

-- MaxBytes - ReportReserve - MetadataReserve
abbrev pub quota : ℕ
quota = 6225920

pub data Failure : Type 0 where
  quota_exceeded event_quota_exceeded invalid_filename reserve_exceeded short_write invalid_json :
      Failure
  storage_failed marshal_failed file_failed : String → Failure

-- The directory of the run: filepath.Base, os.OpenFile with O_EXCL, File.Write, Sync and Close on the
-- log of a name, json.Valid, safefs.AtomicWrite, and the clocks that time.Since and time.Now read.
pub record Storage (W : Type 0) : Type 0 where
  pub base : String → String
  pub create : String → W → Option String × W
  pub append : String → Bytes → W → (ℕ × Option String) × W
  pub sync : String → W → Option String × W
  pub close : String → W → Option String × W
  pub is_json : Bytes → Bool
  pub atomic_write : String → Bytes → W → Option String × W
  pub monotonic : W → ℤ
  pub utc : W → ℤ

-- Recorder, without its directory, which is the Storage, and its three logs, which have fixed names.
-- `cancels` counts the calls of `cancel`.
pub record Recorder : Type 0 where
  pub start : ℤ
  pub used : ℤ
  pub seq : ℕ
  pub error : Option Failure
  pub cancels : ℕ
  pub files : List String

-- A recorder with the world that it writes to.
pub record Held (W : Type 0) : Type 0 where
  pub recorder : Recorder
  pub world : W

-- failLocked
unfoldable pub fail_locked : Failure → Recorder → Recorder
fail_locked e r = elim r.error [
  | none ↦ record r { error = some e; cancels = suc r.cancels }
  | some _ ↦ r
]

-- r.used + int64(len(p)) > MaxBytes - ReportReserve - MetadataReserve
unfoldable pub over_quota : Bytes → Recorder → Bool
over_quota p r = not (leb_ℤ (wrap64 (r.used +ℤ pos (length p))) (pos quota))

unfoldable pub spend : ℕ → Recorder → Recorder
spend n r = record r { used = wrap64 (r.used +ℤ pos n) }

-- The section of Event that numbers the event; an error is what the call returns.
unfoldable pub next_sequence : Recorder → Result (Option Failure) ℕ × Recorder
unfolding fail_locked
next_sequence r =
    if leb max_events r.seq
    then (let r' = fail_locked event_quota_exceeded r in (err r'.error, r'))
    else (ok (suc r.seq), record r { seq = suc r.seq })

-- The section of SaveRaw that reserves the bytes, with what the call returns if it stops there.
unfoldable pub reserve : Bytes → Recorder → Option Failure × Recorder
unfolding fail_locked over_quota spend
reserve p r = elim r.error [
  | some e ↦ (some e, r)
  | none ↦
      if over_quota p r
      then (let r' = fail_locked quota_exceeded r in (r'.error, r'))
      else (none, spend (length p) r)
]

module _ {W : Type 0} (storage : Storage W) where
  -- The end of drainWriter.Write: the count of the file, and a short write is an error.
  unfoldable pub after_append : Bytes → (ℕ × Option String) × W → Recorder → Held W
  unfolding fail_locked spend
  after_append p ((n, some e), w) r = record {
    recorder = fail_locked (storage_failed e) (spend n r);
    world = w;
  }
  after_append p ((n, none), w) r = record {
    recorder = if n == length p then spend n r else fail_locked short_write (spend n r);
    world = w;
  }

  -- drainWriter.Write; what it returns is always (len(p), nil).
  unfoldable pub drain : String → Bytes → Held W → Held W
  unfolding fail_locked over_quota after_append
  drain name p s = elim s.recorder.error [
    | some _ ↦ s
    | none ↦
        if over_quota p s.recorder
        then record s { recorder = fail_locked quota_exceeded s.recorder }
        else after_append p (storage.append name p s.world) s.recorder
  ]
