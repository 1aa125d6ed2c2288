-- ===== src/Evidence/Records.antt =====
-- The methods of the recorder of internal/evidence/evidence.go: New, OpenLog, Event, Clocks, Action, Save,
-- SaveRaw, Final, Err and Close.
pub mod Sticky
use epoch.Base.{
  Bytes, newline, ℕ, String, Bool, not, Option, none, some, List, [], ◌∷◌, ◌++◌, length, ℤ, pos,
  ◌-ℤ◌, leb, ltb, saturate64, str_eq, if◌then◌else◌, Result, ok, err,
}
use epoch.Evidence.{
  Failure, invalid_filename, reserve_exceeded, invalid_json, marshal_failed, file_failed, Storage,
  Recorder, Held, report_reserve, fail_locked, next_sequence, reserve, drain,
}

-- Event; `V` is what `any` holds.
pub record Event (V : Type 0) : Type 0 where
  pub api_version : String
  pub sequence : ℕ
  pub stage : String
  pub elapsed_ns : ℤ
  pub host_utc : ℤ
  pub kind : String
  pub payload : V

-- json.Marshal of an event and of a value, and json.MarshalIndent.
pub record Marshal (V : Type 0) : Type 0 where
  pub event : Event V → Result String Bytes
  pub compact : V → Result String Bytes
  pub indented : V → Result String Bytes

module _ {W : Type 0} (storage : Storage W) where
  -- Err
  unfoldable pub current_error : Held W → Option Failure
  current_error s = s.recorder.error

  opened : String → Option String × W → Recorder → Option Failure × Held W
  opened name (some e, w) r = (some (file_failed e), record { recorder = r; world = w })
  opened name (none, w) r =
      (none, record { recorder = record r { files = r.files ++ name ∷ [] }; world = w })

  unfoldable pub open_log : String → Held W → Option Failure × Held W
  unfolding opened
  open_log name s =
      if not (str_eq (storage.base name) name)
      then (some invalid_filename, s)
      else opened name (storage.create name s.world) s.recorder

  noted : Option String → List Failure → List Failure
  noted none later = later
  noted (some e) later = file_failed e ∷ later

  -- Each file is synced and closed, whatever the calls return.
  close_files : List String → W → List Failure × W
  unfolding noted
  close_files [] w = ([], w)
  close_files (name ∷ rest) w =
      let synced = storage.sync name w in
      let closed = storage.close name synced.1 in
      let later = close_files rest closed.1 in (noted synced.0 (noted closed.0 later.0), later.1)

  -- Close; the errors are those that it joins.
  unfoldable pub close : Held W → List Failure × Held W
  unfolding close_files
  close s =
      let (errors, w) = close_files s.recorder.files s.world in
      (errors, record { recorder = record s.recorder { files = [] }; world = w })

  abbrev log_names : List String
  log_names = "events.ndjson" ∷ "clock-observations.ndjson" ∷ "actions.ndjson" ∷ []

  -- What New does about a log that does not open: it closes the ones before.
  abandon : Failure → Held W → Option Failure × Held W
  unfolding close
  abandon e s = (some e, (close s).1)

  or_abandon : Option Failure × Held W → Option Failure × Held W
  unfolding abandon
  or_abandon (none, s) = (none, s)
  or_abandon (some e, s) = abandon e s

  then_open : String → Option Failure × Held W → Option Failure × Held W
  unfolding open_log or_abandon
  then_open name (some e, s) = (some e, s)
  then_open name (none, s) = or_abandon (open_log name s)

  -- New
  unfoldable pub new : W → Option Failure × Held W
  unfolding open_log then_open
  new w =
      let fresh : Held W = record {
        recorder = record {
          start = storage.monotonic w;
          used = pos 0;
          seq = 0;
          error = none;
          cancels = 0;
          files = [];
        };
        world = w;
      } in
      then_open "actions.ndjson"
        (then_open "clock-observations.ndjson" (open_log "events.ndjson" fresh))

  -- line: a marshalled record and a line feed go to the log, and the sticky error is returned.
  unfoldable pub line : String → Result String Bytes → Held W → Option Failure × Held W
  unfolding current_error drain
  line name (err e) s = (some (marshal_failed e), s)
  line name (ok b) s = let s' = drain storage name (b ++ newline) s in (current_error s', s')

  module _ {V : Type 0} (marshal : Marshal V) where
    numbered :
        String → String → V → Result (Option Failure) ℕ × Recorder → W → Option Failure × Held W
    unfolding line
    numbered stage kind v (err e, r) w = (e, record { recorder = r; world = w })
    numbered stage kind v (ok n, r) w =
        line "events.ndjson"
          (marshal.event (record {
            api_version = "epoch-event/v1";
            sequence = n;
            stage = stage;
            elapsed_ns = saturate64 (storage.monotonic w -ℤ r.start);
            host_utc = storage.utc w;
            kind = kind;
            payload = v;
          }))
          (record { recorder = r; world = w })

    unfoldable pub event : String → String → V → Held W → Option Failure × Held W
    unfolding numbered next_sequence
    event stage kind v s = numbered stage kind v (next_sequence s.recorder) s.world

    unfoldable pub clocks : V → Held W → Option Failure × Held W
    unfolding line
    clocks v s = line "clock-observations.ndjson" (marshal.compact v) s

    unfoldable pub action : V → Held W → Option Failure × Held W
    unfolding line
    action v s = line "actions.ndjson" (marshal.compact v) s

  written : Option String × W → Option Failure × W
  written (none, w) = (none, w)
  written (some e, w) = (some (file_failed e), w)

  -- atomicBytes
  unfoldable pub atomic_bytes : String → Bytes → W → Option Failure × W
  unfolding written
  atomic_bytes name b w =
      if not (storage.is_json b)
      then (some invalid_json, w)
      else written (storage.atomic_write name b w)

  published : Option Failure × W → Recorder → Option Failure × Held W
  unfolding fail_locked
  published (none, w) r = (none, record { recorder = r; world = w })
  published (some e, w) r = (some e, record { recorder = fail_locked e r; world = w })

  reserved : String → Bytes → Option Failure × Recorder → W → Option Failure × Held W
  unfolding published atomic_bytes
  reserved name b (some e, r) w = (some e, record { recorder = r; world = w })
  reserved name b (none, r) w = published (atomic_bytes name b w) r

  unfoldable pub save_raw : String → Bytes → Held W → Option Failure × Held W
  unfolding reserved reserve
  save_raw name b s =
      if not (str_eq (storage.base name) name)
      then (some invalid_filename, s)
      else reserved name b (reserve b s.recorder) s.world

  -- Save, on what json.MarshalIndent gives
  unfoldable pub save : String → Result String Bytes → Held W → Option Failure × Held W
  unfolding save_raw
  save name (err e) s = (some (marshal_failed e), s)
  save name (ok b) s = save_raw name (b ++ newline) s

  -- Final, on what json.Marshal gives: the recorder's error and its quota are not looked at.
  unfoldable pub final : Result String Bytes → Held W → Option Failure × Held W
  unfolding atomic_bytes
  final (err e) s = (some (marshal_failed e), s)
  final (ok b) s =
      if ltb report_reserve (length (b ++ newline))
      then (some reserve_exceeded, s)
      else (let (failed, w) = atomic_bytes "report.json" (b ++ newline) s.world in
          (failed, record s { world = w }))
