-- ===== src/Guest/Workload/ServiceSet.antt =====
-- The workload manager of internal/guestagent/process_linux.go as its client sees it: a set of running service
-- names, without processes, clocks or errors of the system.
use epoch.Base.{
  String, Bool, not, ◌&&◌, Option, none, some, List, [], ◌∷◌, length, ltb, member, delete,
  if◌then◌else◌, ◌≡◌, ◌≢◌, ◌⊎◌,
}
use epoch.Guest.Workload.{Manager}
use epoch.Guest.Workload.Actions.{Answer}
use epoch.Guest.Workload.Services.Names.{names}

-- A declared service starts where it does not run yet and fewer than four do.
unfoldable pub add_service : Bool → String → List String → Option (List String)
add_service declared k ks =
    if declared && (not (member k ks) && ltb (length ks) 4) then some (k ∷ ks) else none

-- A service stops where it runs.
unfoldable pub drop_service : String → List String → Option (List String)
drop_service k ks = if member k ks then some (delete k ks) else none

-- An answer that implements `next`: it takes the names there, or leaves them and is an error.
abbrev pub Implements :
    {A W : Type 0} → Option (List String) → List String → Answer A × Manager W → Type 0
Implements next ks ((a, es), m) =
    (next ≡ some (names m.services)) ⊎ ((names m.services ≡ ks) × (es ≢ []))
