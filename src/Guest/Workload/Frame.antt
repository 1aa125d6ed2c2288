-- ===== src/Guest/Workload/Frame.antt =====
-- What the calls that end a process, run an action and stop a service keep of the system under the manager
-- of internal/guestagent/process_linux.go.
use epoch.Base.{
  ℕ, String, Bool, true, false, Option, none, some, arith, if-elim, Option-cases, inl, inr,
}
use epoch.Json.{Raw}
use epoch.Guest.Workload.{
  Signal, term, kill, Killed, delivered, no_such_process, kill_failed, Watch, wakes, tick, Machine,
  WorkloadError, killed, signal_group, cleaned, after_reap, after_kill, after_grace, after_term,
  terminate,
}

module _ {W : Type 0} (machine : Machine W) (Q : W → Type 0) where
  -- A property of the system that the looks at the clock and the signals keep.
  pub record IsKept : Type 0 where
    pub by_clock : (w : W) → Q w → Q (machine.read_clock w).1
    pub by_kill : (s : Signal) (p : ℕ) (w : W) → Q w → Q (machine.kill_group s p w).1
    pub by_grace : (p : ℕ) (w : W) → Q w → Q (machine.grace p w).1
    pub by_reap : (p : ℕ) (w : W) → Q w → Q (machine.reap p w).1

  -- It holds wherever a watch of a process ends.
  abbrev pub Watched : Watch W → Type 0
  Watched (wakes k w) = Q w
  Watched (tick w later) = Q w × Watched later

  -- Launches, watches and pauses keep it too.
  pub record IsKeptByRuns : Type 0 where
    pub kept : IsKept
    pub by_launch :
        (kind id : String) (i : Option Raw) (w : W) → Q w → Q (machine.launch kind id i w).1
    pub by_watch : (p : ℕ) (w : W) → Q w → Watched (machine.watch p w)

  module _ (kept : IsKept) where
    cleaned-kept : (p : ℕ) (w : W) → Q w → Q (cleaned machine p w).1
    unfolding cleaned
    cleaned-kept p w q = elim (Option-cases (machine.look p w).cleanup_error) [
      | inl fine ↦ ground (arith, fine)
      | inr (e, bad) ↦ ground (arith, bad)
    ]

    killed-kept : (out : Killed × W) → Q out.1 → Q (killed machine out).1
    unfolding killed
    killed-kept (delivered, w) q = q
    killed-kept (no_such_process, w) q = q
    killed-kept (kill_failed e, w) q = q

    signal_group-kept : (s : Signal) (p : ℕ) (w : W) → Q w → Q (signal_group machine s p w).1
    unfolding signal_group
    signal_group-kept s p w q =
        if-elim (λ (out : Option WorkloadError × W). Q out.1) (machine.look p w).reaping _ _
          (λ _. q) (λ _. killed-kept (machine.kill_group s p w) (kept.by_kill s p w q))

    after_reap-kept : (p : ℕ) (out : Option String × W) → Q out.1 → Q (after_reap machine p out).1
    unfolding after_reap
    after_reap-kept p (none, w) q = cleaned-kept p w q
    after_reap-kept p (some e, w) q = q

    after_kill-kept :
        (p : ℕ) (out : Option WorkloadError × W) → Q out.1 → Q (after_kill machine p out).1
    unfolding after_kill
    after_kill-kept p (some e, w) q = q
    after_kill-kept p (none, w) q = after_reap-kept p (machine.reap p w) (kept.by_reap p w q)

    after_grace-kept : (p : ℕ) (out : Bool × W) → Q out.1 → Q (after_grace machine p out).1
    unfolding after_grace
    after_grace-kept p (true, w) q = cleaned-kept p w q
    after_grace-kept p (false, w) q = after_kill-kept p _ (signal_group-kept kill p w q)

    after_term-kept :
        (p : ℕ) (out : Option WorkloadError × W) → Q out.1 → Q (after_term machine p out).1
    unfolding after_term
    after_term-kept p (some e, w) q = q
    after_term-kept p (none, w) q = after_grace-kept p (machine.grace p w) (kept.by_grace p w q)

    pub terminate-kept : (p : ℕ) (w : W) → Q w → Q (terminate machine p w).1
    unfolding terminate
    terminate-kept p w q =
        if-elim (λ (out : Option WorkloadError × W). Q out.1) (machine.look p w).done _ _
          (λ _. cleaned-kept p w q) (λ _. after_term-kept p _ (signal_group-kept term p w q))
