-- ===== src/Runtime/Directory/Outcome.antt =====
-- What feedback makes of the directory (app/dataplane/account/__init__.py, feedback).
use grok2apinew.Prelude.{
  none, ℕ, ◌≤◌, ◌≡◌, refl, String, true, false, Option, some, arith, Option-cases, Bool-cases, inl,
  inr,
}
use grok2apinew.Prelude.Int.{ℤ}
use grok2apinew.Prelude.Result.{ok, >>=-eq-ok}
use grok2apinew.Prelude.Float.{Float}
use grok2apinew.Account.Models.{FeedbackKind, unauthorized}
use grok2apinew.Prelude.SetMap.{pair_eq, holds}
use grok2apinew.Prelude.{get_elem?, get_elem?-set_self}
use grok2apinew.Runtime.Slot.{Slot, StatusId, expired, is_active, same_status}
use grok2apinew.Runtime.Table.{Table, write}
use grok2apinew.Runtime.Table.Access.{slot_at-bind}
use grok2apinew.Runtime.Table.Invariant.{fits}
use grok2apinew.Runtime.Feedback.{
  status_changed, apply_status_change, apply_auth_failure, update_last_fail,
}
use grok2apinew.Runtime.Table.Writers.{IsConsistent}
use grok2apinew.Runtime.Directory.{Settings, AccountDirectory}
use grok2apinew.Runtime.Directory.Feedback.{feedback, feedback_by_kind}
use grok2apinew.Runtime.Directory.Steps.{feedback_at-IsConsistent, feedback_by_kind-IsConsistent}

-- No table yet, or a consistent one.
abbrev SoundTable : {N : Type 0} → Option (Table N) → Type 0
SoundTable none = Unit
SoundTable (some t) = IsConsistent t

-- A directory whose table, if there is one, is consistent.
abbrev pub IsSound : {N : Type 0} → AccountDirectory N → Type 0
IsSound d = SoundTable d.table

-- Feedback by token, of any kind, on a mode that has an index, keeps a directory sound if it does not
-- raise: if there is a table, the entries of its selection indexes are active slots of their pools, and
-- every active slot stands in the entry of each mode for which it has a window.
pub feedback-IsSound :
    (f : Float) (settings : Settings) (d d' : AccountDirectory f.Number) (token : String)
    (kind : FeedbackKind) (m : ℕ) (remaining : Option ℤ) (reset_at_ms : Option ℕ) (ts clock : ℕ)
    → m ≤ 4
    → feedback f settings d token kind m remaining reset_at_ms ts clock ≡ ok d'
    → IsSound d
    → IsSound d'
unfolding feedback
feedback-IsSound f settings d d' token kind m remaining reset_at_ms ts clock le e h =
    elim (Option-cases d.table) [
      | inl empty ↦ let same : d ≡ d' = ground (arith, rw empty at e) in rw (← same) h
      | inr (t, there) ↦ elim (Option-cases (t.idx_by_token token)) [
        | inl unknown ↦
            let same : d ≡ d' = ground (arith, rw (there, unknown) at e) in rw (← same) h
        | inr (idx, known) ↦
            let (t₁, first, last) = >>=-eq-ok _ _ (rw (there, known) at e) in
            let same : d' ≡ record d { table = some t₁ } = ground (arith, last) in
            rw same (
              feedback_at-IsConsistent f settings t t₁ idx m ts clock kind remaining reset_at_ms le
                first (rw there at h))
      ]
    ]

same_status_eq : (a b : StatusId) → same_status a b ≡ true → a ≡ b
same_status_eq a b h = ground arith

module _ {N : Type 0} where
  status_changed-status :
      (t : Table N) (idx : ℕ) (s : Slot N) (new_status : StatusId)
      → get_elem? t.slots idx ≡ some s
      → (s' : Slot N) × (get_elem? (status_changed t idx s new_status).slots idx ≡ some s')
        × (s'.status_id ≡ new_status)
  unfolding write
  status_changed-status t idx s new_status here =
      elim (Bool-cases (same_status s.status_id new_status)) [
        | inl same ↦ rw same (s, here, same_status_eq s.status_id new_status same)
        | inr changed ↦
            let s' : Slot N = record s { status_id = new_status } in
            rw changed (elim (Bool-cases (is_active new_status)) [
              | inl on ↦ rw on (s', get_elem?-set_self t.slots idx s' s here, refl)
              | inr off ↦ rw off (s', get_elem?-set_self t.slots idx s' s here, refl)
            ])
      ]

  apply_status_change-status :
      (t t' : Table N) (idx : ℕ) (new_status : StatusId)
      → apply_status_change t idx new_status ≡ ok t'
      → (s' : Slot N) × (get_elem? t'.slots idx ≡ some s') × (s'.status_id ≡ new_status)
  unfolding apply_status_change
  apply_status_change-status t t' idx new_status e =
      let (s, here, result) = slot_at-bind t idx _ e in
      let same : t' ≡ status_changed t idx s new_status = cc in
      rw same (status_changed-status t idx s new_status here)

  -- A slot that is not active stands in no index of a consistent table.
  unindexed :
      (t : Table N) (idx p m : ℕ) (s : Slot N)
      → IsConsistent t
      → get_elem? t.slots idx ≡ some s
      → is_active s.status_id ≡ false
      → holds t.mode_available (p, m) idx ≡ false
  unfolding fits
  unindexed t idx p m s h here off = ground (arith, h.sound p m idx, here)

-- After UNAUTHORIZED feedback on a slot of a consistent table the slot is expired, and it stands in the
-- index of no pool and mode.
pub unauthorized_unindexed :
    (f : Float) (settings : Settings) (t t' : Table f.Number) (idx m ts clock p n : ℕ)
    → IsConsistent t
    → feedback_by_kind f settings unauthorized t idx m ts clock ≡ ok t'
    → ((s : Slot f.Number) × (get_elem? t'.slots idx ≡ some s) × (s.status_id ≡ expired))
      × (holds t'.mode_available (p, n) idx ≡ false)
unfolding feedback_by_kind
unauthorized_unindexed f settings t t' idx m ts clock p n h e =
    let (t₁, _, rest) = >>=-eq-ok (apply_auth_failure f t idx) _ e in
    let (t₂, _, last) = >>=-eq-ok (update_last_fail t₁ idx ts) _ rest in
    let (s, here, gone) = apply_status_change-status t₂ t' idx expired last in
    (
      (s, here, gone),
      unindexed t' idx p n s
          (feedback_by_kind-IsConsistent f settings unauthorized t t' idx m ts clock e h) here
          (rw gone refl),
    )
