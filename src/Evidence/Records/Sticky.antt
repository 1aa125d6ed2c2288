-- ===== src/Evidence/Records/Sticky.antt =====
-- What the methods of internal/evidence/evidence.go do after a first failure.
use epoch.Base.{
  Bytes, String, Option, none, some, Bool-cases, [], ◌∷◌, ◌++◌, ◌≡◌, ◌≢◌, inl, inr, arith, leb,
  Result, ok, err,
}
use epoch.Evidence.{Failure, Storage, max_events, Held, next_sequence, reserve, drain}
use epoch.Evidence.Records.{Marshal, numbered, line, event, clocks, action, save, save_raw, final}

-- The call returned an error and changed nothing that is written, accounted or reported: at most it took
-- a number.
abbrev pub IsRefused : {W : Type 0} → Held W → Option Failure × Held W → Type 0
IsRefused s (failed, s') =
    (failed ≢ none)
    × (s'.world ≡ s.world)
    × (s'.recorder ≡ record s.recorder { seq = s'.recorder.seq })

module _ {W : Type 0} (storage : Storage W) (s : Held W) {e : Failure}
    (stuck : s.recorder.error ≡ some e) where
  drain_stuck : (name : String) (p : Bytes) → drain storage name p s ≡ s
  unfolding drain
  drain_stuck name p = ground arith

  line-IsRefused : (name : String) (b : Result String Bytes) → IsRefused s (line storage name b s)
  unfolding line drain
  line-IsRefused name (ok b) = ground arith
  line-IsRefused name (err bad) = ground arith

  save_raw-IsRefused : (name : String) (b : Bytes) → IsRefused s (save_raw storage name b s)
  unfolding save_raw reserve
  save_raw-IsRefused name b = ground arith

  save-IsRefused : (name : String) (b : Result String Bytes) → IsRefused s (save storage name b s)
  unfolding save
  save-IsRefused name (ok b) = save_raw-IsRefused name (b ++ 10 ∷ [])
  save-IsRefused name (err bad) = ground arith

  final_unmoved :
      (b : Result String Bytes)
      → let fine = record s { recorder = record s.recorder { error = none } } in
        ((final storage b s).0 ≡ (final storage b fine).0)
        × ((final storage b s).1.world ≡ (final storage b fine).1.world)
  unfolding final
  final_unmoved (ok b) = ground arith
  final_unmoved (err bad) = ground arith

module _ {W V : Type 0} (storage : Storage W) (marshal : Marshal V) (s : Held W) {e : Failure}
    (stuck : s.recorder.error ≡ some e) where
  event-IsRefused :
      (stage kind : String) (v : V) → IsRefused s (event storage marshal stage kind v s)
  unfolding event next_sequence numbered
  event-IsRefused stage kind v = elim (Bool-cases (leb max_events s.recorder.seq)) [
    | inl full ↦ ground arith
    | inr room ↦ ground (arith, room)
  ]

  -- After a first failure every later write is dropped, every record, event and file is refused with an
  -- error, and none of them changes the disk, the accounted bytes, the error or the number of cancels;
  -- the final report is saved, or refused, as if nothing had failed.
  pub sticky_failure :
      (name stage kind : String) (p : Bytes) (b : Result String Bytes) (v : V)
      → let fine = record s { recorder = record s.recorder { error = none } } in
        (drain storage name p s ≡ s)
        × IsRefused s (event storage marshal stage kind v s)
        × IsRefused s (clocks storage marshal v s)
        × IsRefused s (action storage marshal v s)
        × IsRefused s (save storage name b s)
        × IsRefused s (save_raw storage name p s)
        × ((final storage b s).0 ≡ (final storage b fine).0)
        × ((final storage b s).1.world ≡ (final storage b fine).1.world)
  unfolding clocks action
  sticky_failure name stage kind p b v = (
    drain_stuck storage s stuck name p,
    event-IsRefused stage kind v,
    line-IsRefused storage s stuck "clock-observations.ndjson" (marshal.compact v),
    line-IsRefused storage s stuck "actions.ndjson" (marshal.compact v),
    save-IsRefused storage s stuck name b,
    save_raw-IsRefused storage s stuck name p,
    (final_unmoved storage s stuck b).0,
    (final_unmoved storage s stuck b).1,
  )
