-- ===== src/Runtime/Directory/Load.antt =====
-- app/dataplane/account/__init__.py: bootstrap and sync_if_changed. The answers of the repository are
-- arguments, and so are the times at which the statuses are derived.
use grok2apinew.Prelude.{ℕ, ◌≡◌, Bool, false, Option, none, some, List, arith}
use grok2apinew.Prelude.Int.{ℤ}
use grok2apinew.Prelude.Result.{Result, ok, ◌>>=◌, >>=-eq-ok}
use grok2apinew.Prelude.Float.{Float}
use grok2apinew.Account.StateMachine.Status.{Conversions}
use grok2apinew.Runtime.Table.{Table}
use grok2apinew.Runtime.Sync.{AccountChangeSet, RuntimeSnapshot, bootstrap, apply_changes}
use grok2apinew.Runtime.Sync.Consistent.{bootstrap-IsConsistent, apply_changes-IsConsistent}
use grok2apinew.Runtime.Directory.{AccountDirectory}
use grok2apinew.Runtime.Directory.Outcome.{IsSound}

pub kept_directory :
    {N B : Type 0} (d : AccountDirectory N) (b : B) (r : AccountDirectory N × B)
    → ok (d, b) ≡ ok r
    → IsSound d
    → IsSound r.0
kept_directory d b r e h = let same : (d, b) ≡ r = cc in rw (← same) h

module _ (f : Float) (conversions : Conversions) (clock : ℕ → ℤ) where
  -- AccountDirectory.bootstrap
  unfoldable pub load :
      AccountDirectory f.Number → RuntimeSnapshot → Result (AccountDirectory f.Number)
  load d snapshot = do t ← bootstrap f conversions clock snapshot; ok (record d { table = some t })

  pub load-IsSound :
      (d d' : AccountDirectory f.Number) (snapshot : RuntimeSnapshot)
      → load d snapshot ≡ ok d'
      → IsSound d'
  unfolding load
  load-IsSound d d' snapshot e =
      let (t, first, last) = >>=-eq-ok (bootstrap f conversions clock snapshot) _ e in
      let same : record d { table = some t } ≡ d' = ground (arith, last) in
      rw (← same) (bootstrap-IsConsistent f conversions clock snapshot t first)

module _ (f : Float) (conversions : Conversions) (clock : ℕ → ℕ → ℤ) where
  abbrev pub sync_in :
      Option (Table f.Number)
      → AccountDirectory f.Number
      → List AccountChangeSet
      → Result (AccountDirectory f.Number × Bool)
  sync_in none d batches = ok (d, false)
  sync_in (some t) d batches = do
    (t', changed) ← apply_changes f conversions clock t batches false
    ok (record d { table = some t' }, changed)

  unfoldable pub sync_if_changed :
      AccountDirectory f.Number → List AccountChangeSet → Result (AccountDirectory f.Number × Bool)
  sync_if_changed d batches = sync_in d.table d batches

  pub sync_in-IsSound :
      (o : Option (Table f.Number)) (d : AccountDirectory f.Number)
      (batches : List AccountChangeSet) (r : AccountDirectory f.Number × Bool)
      → d.table ≡ o
      → sync_in o d batches ≡ ok r
      → IsSound d
      → IsSound r.0
  sync_in-IsSound none d batches r there e h = kept_directory d false r e h
  sync_in-IsSound (some t) d batches r there e h =
      let (o, first, last) = >>=-eq-ok (apply_changes f conversions clock t batches false) _ e in
      kept_directory (record d { table = some o.0 }) o.1 r last
        (apply_changes-IsConsistent f conversions clock batches t false o first (rw there at h))
