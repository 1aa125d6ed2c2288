-- ===== src/Guest/Workload/Reaping.antt =====
-- The end of a process in internal/guestagent/process_linux.go: it fails, or the process is done.
use epoch.Base.{
  ℕ, String, Bool, true, false, Option, none, some, ◌≡◌, ◌⊎◌, inl, inr, refl, arith, if-elim,
  Option-cases,
}
use epoch.Guest.Workload.{
  term, kill, Machine, WorkloadError, cleaned, signal_group, after_reap, after_kill, after_grace,
  after_term, terminate,
}
use epoch.Guest.Workload.Frame.{IsKept}

abbrev pub IsDone : {W : Type 0} → Machine W → ℕ → W → Type 0
IsDone machine p w = (machine.look p w).done ≡ true

-- The channel `done` of a process stays closed, and who received from it has seen it closed.
pub record IsReaping {W : Type 0} (machine : Machine W) : Type 0 where
  pub persists : (p : ℕ) → IsKept machine (IsDone machine p)
  pub by_grace :
      (p : ℕ) (w : W) → ((machine.grace p w).0 ≡ false) ⊎ IsDone machine p (machine.grace p w).1
  pub by_reap :
      (p : ℕ) (w : W)
      → ((e : String) × ((machine.reap p w).0 ≡ some e)) ⊎ IsDone machine p (machine.reap p w).1

module _ {W : Type 0} (machine : Machine W) (reaping : IsReaping machine) where
  -- The call failed, or the process is done.
  abbrev pub Reaps : ℕ → Option WorkloadError × W → Type 0
  Reaps p out = ((e : WorkloadError) × (out.0 ≡ some e)) ⊎ IsDone machine p out.1

  cleaned-Reaps : (p : ℕ) (w : W) → IsDone machine p w → Reaps p (cleaned machine p w)
  unfolding cleaned
  cleaned-Reaps p w done = elim (Option-cases (machine.look p w).cleanup_error) [
    | inl fine ↦ inr (ground (arith, fine))
    | inr (e, bad) ↦ inr (ground (arith, bad))
  ]

  after_reap-Reaps :
      (p : ℕ) (out : Option String × W)
      → ((e : String) × (out.0 ≡ some e)) ⊎ IsDone machine p out.1
      → Reaps p (after_reap machine p out)
  unfolding after_reap
  after_reap-Reaps p (some e, w) h = inl (WorkloadError.reap_failed e, refl)
  after_reap-Reaps p (none, w) (inl (e, bad)) = absurd (ground (arith, bad))
  after_reap-Reaps p (none, w) (inr done) = cleaned-Reaps p w done

  after_kill-Reaps : (p : ℕ) (out : Option WorkloadError × W) → Reaps p (after_kill machine p out)
  unfolding after_kill
  after_kill-Reaps p (some e, w) = inl (e, refl)
  after_kill-Reaps p (none, w) = after_reap-Reaps p (machine.reap p w) (reaping.by_reap p w)

  after_grace-Reaps :
      (p : ℕ) (out : Bool × W)
      → (out.0 ≡ false) ⊎ IsDone machine p out.1
      → Reaps p (after_grace machine p out)
  unfolding after_grace
  after_grace-Reaps p (true, w) (inl n) = absurd (ground (arith, n))
  after_grace-Reaps p (true, w) (inr done) = cleaned-Reaps p w done
  after_grace-Reaps p (false, w) h = after_kill-Reaps p (signal_group machine kill p w)

  after_term-Reaps : (p : ℕ) (out : Option WorkloadError × W) → Reaps p (after_term machine p out)
  unfolding after_term
  after_term-Reaps p (some e, w) = inl (e, refl)
  after_term-Reaps p (none, w) = after_grace-Reaps p (machine.grace p w) (reaping.by_grace p w)

  pub terminate-Reaps : (p : ℕ) (w : W) → Reaps p (terminate machine p w)
  unfolding terminate
  terminate-Reaps p w =
      if-elim (λ (out : Option WorkloadError × W). Reaps p out) (machine.look p w).done _ _
        (λ done. cleaned-Reaps p w done) (λ _. after_term-Reaps p (signal_group machine term p w))
