-- ===== src/Runtime/Selector/Windows.antt =====
-- The inline reset of expired windows (app/dataplane/account/selector.py, _maybe_reset_windows) keeps
-- the indexes, and every slot but for its quotas and reset times.
use grok2apinew.Prelude.{
  ℕ, ◌≡◌, refl, ◌∙◌, some, List, [], ◌∷◌, ◌==◌, arith, Bool-cases, inl, inr, get_elem?,
  if◌then◌else◌,
}
use grok2apinew.Prelude.Result.{ok}
use grok2apinew.Runtime.Slot.{Slot}
use grok2apinew.Runtime.Table.{Table, write}
use grok2apinew.Runtime.Table.Access.{slot_at-bind}
use grok2apinew.Runtime.Table.Writers.{IsConsistent}
use grok2apinew.Runtime.Feedback.Consistent.{SameKey, set-IsIndexed}
use grok2apinew.Runtime.Selector.{reset_each, maybe_reset_windows, window_is_over, renewed}

module _ {N : Type 0} where
  renewed-SameKey : (mode_id now : ℕ) (s : Slot N) → SameKey s (renewed mode_id now s)
  unfolding renewed
  renewed-SameKey mode_id now s = record { pool = refl; status = refl; window = refl }

  abbrev turn : Table N → ℕ → Slot N → ℕ → ℕ → ℕ → Table N
  turn t idx s mode_id pool_id now =
      if window_is_over pool_id mode_id now s then write t idx (renewed mode_id now s) else t

  turn-IsConsistent :
      (t : Table N) (idx : ℕ) (s : Slot N) (mode_id pool_id now : ℕ)
      → get_elem? t.slots idx ≡ some s
      → IsConsistent t
      → IsConsistent (turn t idx s mode_id pool_id now)
  unfolding write
  turn-IsConsistent t idx s mode_id pool_id now here h =
      elim (Bool-cases (window_is_over pool_id mode_id now s)) [
        | inl over ↦ rw over (
            set-IsIndexed t.slots idx s (renewed mode_id now s) here (renewed-SameKey mode_id now s)
              t.mode_available h)
        | inr open_still ↦ rw open_still h
      ]

  turn_keeps :
      (t : Table N) (idx : ℕ) (s : Slot N) (mode_id pool_id now : ℕ)
      → (turn t idx s mode_id pool_id now).mode_available ≡ t.mode_available
  unfolding write
  turn_keeps t idx s mode_id pool_id now = ground arith

  reset_each-IsConsistent :
      (t t' : Table N) (candidates : List ℕ) (mode_id pool_id now : ℕ)
      → reset_each t candidates mode_id pool_id now ≡ ok t'
      → IsConsistent t
      → IsConsistent t' × (t'.mode_available ≡ t.mode_available)
  unfolding reset_each
  reset_each-IsConsistent t t' [] mode_id pool_id now e h =
      let same : t ≡ t' = cc in (rw (← same) h, rw same)
  reset_each-IsConsistent t t' (idx ∷ rest) mode_id pool_id now e h =
      let (s, here, more) = slot_at-bind t idx _ e in
      let t₁ = turn t idx s mode_id pool_id now in
      let (good, kept) =
        reset_each-IsConsistent t₁ t' rest mode_id pool_id now more
          (turn-IsConsistent t idx s mode_id pool_id now here h) in
      (good, kept ∙ turn_keeps t idx s mode_id pool_id now)

  pub maybe_reset_windows-IsConsistent :
      (t t' : Table N) (candidates : List ℕ) (mode_id pool_id now : ℕ)
      → maybe_reset_windows t candidates mode_id pool_id now ≡ ok t'
      → IsConsistent t
      → IsConsistent t' × (t'.mode_available ≡ t.mode_available)
  unfolding maybe_reset_windows
  maybe_reset_windows-IsConsistent t t' candidates mode_id pool_id now e h =
      elim (Bool-cases (pool_id == 0)) [
        | inl basic ↦ reset_each-IsConsistent t t' candidates mode_id pool_id now (rw basic at e) h
        | inr metered ↦
            let same : ok t ≡ ok t' = rw metered at e in
            let same' : t ≡ t' = cc in (rw (← same') h, rw same')
      ]
