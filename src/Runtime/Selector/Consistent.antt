-- ===== src/Runtime/Selector/Consistent.antt =====
-- A selection of app/dataplane/account/selector.py, whatever it finds, keeps the selection indexes
-- consistent: the quota strategy writes only quotas and reset times.
use grok2apinew.Prelude.{
  ℕ, ◌≡◌, Bool, true, false, Option, none, List, arith, Bool-cases, inl, inr, if◌then◌else◌,
}
use grok2apinew.Prelude.Int.{ℤ}
use grok2apinew.Prelude.Result.{Result, ok, >>=-eq-ok}
use grok2apinew.Prelude.IntSet.{nonempty}
use grok2apinew.Prelude.Float.{Float}
use grok2apinew.Runtime.Table.{Table}
use grok2apinew.Runtime.Table.Writers.{IsConsistent}
use grok2apinew.Runtime.Selector.{
  quota_select, random_select, maybe_reset_windows, keep_slots, without, prefer, has_some, best,
  pool_union, is_free,
}
use grok2apinew.Runtime.Selector.Windows.{maybe_reset_windows-IsConsistent}

module _ (f : Float) where
  pub same_result :
      (t t' : Table f.Number) (o o' : Option ℕ)
      → ◌≡◌ {A = Result (Table f.Number × Option ℕ)} (ok (t, o)) (ok (t', o'))
      → IsConsistent t
      → IsConsistent t'
  same_result t t' o o' e h = let same : t ≡ t' = ground (arith, e) in rw (← same) h

  either_result :
      (t t' : Table f.Number) (o o' : Option ℕ) (b : Bool)
      → ◌≡◌ {A = Result (Table f.Number × Option ℕ)}
          (ok (if b then (t, o) else (t, none)))
          (ok (t', o'))
      → IsConsistent t
      → IsConsistent t'
  either_result t t' o o' true e h = same_result t t' o o' e h
  either_result t t' o o' false e h = same_result t t' none o' e h

  pub quota_select-IsConsistent :
      (t t' : Table f.Number) (p m now : ℕ) (excluded preferred : Option (List ℕ)) (o : Option ℕ)
      → quota_select f t p m excluded preferred now ≡ ok (t', o)
      → IsConsistent t
      → IsConsistent t'
  unfolding quota_select
  quota_select-IsConsistent t t' p m now excluded preferred o e h =
      let candidates = t.mode_available.bucket (p, m) in
      elim (Bool-cases (nonempty candidates)) [
        | inr empty ↦ same_result t t' none o (rw empty at e) h
        | inl there ↦
            let (t₁, reset, e₁) =
              >>=-eq-ok (maybe_reset_windows t candidates m p now) _ (rw there at e) in
            let (w, _, e₂) =
              >>=-eq-ok (keep_slots t₁ (has_some m) (without excluded candidates)) _ e₁ in
            let (found, _, e₃) = >>=-eq-ok (best f t₁ (prefer preferred w) m now) _ e₂ in
            let (good, _) = maybe_reset_windows-IsConsistent t t₁ candidates m p now reset h in
            either_result t₁ t' found o (nonempty w) e₃ good
      ]

  pub random_select-IsConsistent :
      (choice : ℕ → ℕ) (max_inflight : ℤ) (t t' : Table f.Number) (p now : ℕ)
      (excluded preferred : Option (List ℕ)) (o : Option ℕ)
      → random_select f choice max_inflight t p excluded preferred now ≡ ok (t', o)
      → IsConsistent t
      → IsConsistent t'
  unfolding random_select
  random_select-IsConsistent choice max_inflight t t' p now excluded preferred o e h =
      let candidates = pool_union t.mode_available p in
      elim (Bool-cases (nonempty candidates)) [
        | inr empty ↦ same_result t t' none o (rw empty at e) h
        | inl there ↦
            let (w, _, last) =
              >>=-eq-ok (keep_slots t (is_free f now max_inflight) (without excluded candidates)) _
                (rw there at e) in
            same_result t t' _ o last h
      ]
