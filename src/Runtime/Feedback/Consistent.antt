-- ===== src/Runtime/Feedback/Consistent.antt =====
-- Feedback keeps the selection indexes consistent with the columns
-- (app/dataplane/account/feedback.py).
use grok2apinew.Prelude.{
  ℕ, ◌≤◌, ◌≡◌, ◌⊎◌, refl, sym, ◌∙◌, true, false, some, List, ◌==◌, arith, Bool-cases, inl, inr,
  get_elem?, set, get_elem?-set_self, get_elem?-set_ne, ==_iff, ltb,
}
use grok2apinew.Prelude.Int.{ℤ}
use grok2apinew.Prelude.Result.{ok}
use grok2apinew.Prelude.SetMap.{SetMap, pair_eq, add_at, touch, holds-add_at, holds-touch}
use grok2apinew.Runtime.Slot.{Slot, StatusId, is_active, same_status, col}
use grok2apinew.Runtime.Table.{Table, write}
use grok2apinew.Runtime.Table.Access.{slot_at-bind}
use grok2apinew.Runtime.Table.Invariant.{IsIndexed, fits, expects, pool_of}
use grok2apinew.Runtime.Table.Writers.{IsConsistent, overwrite-IsIndexed}
use grok2apinew.Runtime.Feedback.{
  modify, apply_status_change, apply_quota_update, status_changed, quota_updated, with_quota,
}

module _ {N : Type 0} where
  -- Two states of a slot between which the indexes see no difference.
  pub record SameKey (s s' : Slot N) : Type 0 where
    pub pool : s'.pool_id ≡ s.pool_id
    pub status : s'.status_id ≡ s.status_id
    pub window : s'.window ≡ s.window

  -- What the indexes see of a slot after such a write.
  module _ (slots : List (Slot N)) (idx : ℕ) (s s' : Slot N) (here : get_elem? slots idx ≡ some s)
      (k : SameKey s s') where
    seen :
        (i : ℕ)
        → (get_elem? (set slots idx s') i ≡ get_elem? slots i)
          ⊎ (get_elem? (set slots idx s') i ≡ some s') × (get_elem? slots i ≡ some s)
    seen i = elim (Bool-cases (idx == i)) [
      | inl same ↦
          let e = (==_iff idx i).0 same in
          inr (cc (e, get_elem?-set_self slots idx s' s here), cc (e, here))
      | inr other ↦ inl (get_elem?-set_ne slots idx i s' (λ q. ground (arith, q, other)))
    ]

    fits-set :
        (i p m : ℕ) → fits (get_elem? (set slots idx s') i) p m ≡ fits (get_elem? slots i) p m
    unfolding fits
    fits-set i p m = ground (arith, seen i, k.pool, k.status)

    expects-set :
        (i m : ℕ) → expects (get_elem? (set slots idx s') i) m ≡ expects (get_elem? slots i) m
    unfolding expects
    expects-set i m = ground (arith, seen i, k.status, k.window)

    pool_of-set : (i : ℕ) → pool_of (get_elem? (set slots idx s') i) ≡ pool_of (get_elem? slots i)
    unfolding pool_of
    pool_of-set i = ground (arith, seen i, k.pool)

    pub set-IsIndexed : (d : SetMap (ℕ × ℕ)) → IsIndexed slots d → IsIndexed (set slots idx s') d
    set-IsIndexed d h = record {
      sound = λ p m i e. rw (fits-set i p m) (h.sound p m i e);
      complete = λ i m e. rw (pool_of-set i) (h.complete i m (sym (expects-set i m) ∙ e));
    }

  -- What a change of one slot has read and written.
  pub modify-eq-ok :
      (t t' : Table N) (idx : ℕ) (change : Slot N → Slot N)
      → modify t idx change ≡ ok t'
      → (s : Slot N) × (get_elem? t.slots idx ≡ some s) × (t' ≡ write t idx (change s))
  unfolding modify
  modify-eq-ok t t' idx change h = let (s, here, more) = slot_at-bind t idx _ h in (s, here, cc)

  -- Feedback on one slot that changes neither its pool, its status nor its windows.
  pub modify-IsConsistent :
      (t t' : Table N) (idx : ℕ) (change : Slot N → Slot N)
      → ((s : Slot N) → SameKey s (change s))
      → modify t idx change ≡ ok t'
      → IsConsistent t
      → IsConsistent t'
  unfolding write
  modify-IsConsistent t t' idx change k e h =
      let (s, here, result) = modify-eq-ok t t' idx change e in
      rw result (set-IsIndexed t.slots idx s (change s) here (k s) t.mode_available h)

  status_changed-IsConsistent :
      (t : Table N) (idx : ℕ) (s : Slot N) (new_status : StatusId)
      → get_elem? t.slots idx ≡ some s
      → is_active new_status ≡ false
      → IsConsistent t
      → IsConsistent (status_changed t idx s new_status)
  unfolding write
  status_changed-IsConsistent t idx s new_status here off h =
      elim (Bool-cases (same_status s.status_id new_status)) [
        | inl same ↦ rw same h
        | inr changed ↦
            rw (changed, off)
              (rw off at (
                overwrite-IsIndexed t.slots t.mode_available idx s
                  (record s { status_id = new_status }) here h))
      ]

  -- A status change to anything but ACTIVE takes the slot out of the indexes.
  pub apply_status_change-IsConsistent :
      (t t' : Table N) (idx : ℕ) (new_status : StatusId)
      → is_active new_status ≡ false
      → apply_status_change t idx new_status ≡ ok t'
      → IsConsistent t
      → IsConsistent t'
  unfolding apply_status_change
  apply_status_change-IsConsistent t t' idx new_status off e h =
      let (s, here, result) = slot_at-bind t idx _ e in
      let same : t' ≡ status_changed t idx s new_status = cc in
      rw same (status_changed-IsConsistent t idx s new_status here off h)

  -- One more entry, for a slot that fits it.
  add_at-IsIndexed :
      (slots : List (Slot N)) (d : SetMap (ℕ × ℕ)) (idx m : ℕ) (s : Slot N)
      → get_elem? slots idx ≡ some s
      → is_active s.status_id ≡ true
      → m ≤ 4
      → IsIndexed slots d
      → IsIndexed slots (add_at (s.pool_id, m) idx d)
  unfolding fits
  add_at-IsIndexed slots d idx m s here act le h = record {
    sound = λ p n i e. elim (Bool-cases (idx == i)) [
      | inl same ↦
          let eq = (==_iff idx i).0 same in
          let at_i : get_elem? slots i ≡ some s = cc (eq, here) in
          ground (arith, at_i, holds-add_at d (s.pool_id, m) (p, n) idx i, h.sound p n i)
      | inr other ↦ h.sound p n i (ground (arith, holds-add_at d (s.pool_id, m) (p, n) idx i))
    ];
    complete = λ i n e. ground (
      arith,
      holds-add_at d (s.pool_id, m) (pool_of (get_elem? slots i), n) idx i,
      h.complete i n e,
    );
  }

  touch-IsIndexed :
      (slots : List (Slot N)) (d : SetMap (ℕ × ℕ)) (p m : ℕ)
      → IsIndexed slots d
      → IsIndexed slots (touch (p, m) d)
  touch-IsIndexed slots d p m h = record {
    sound = λ q n i e. h.sound q n i (sym (holds-touch d (p, m) (q, n) i) ∙ e);
    complete = λ i n e. holds-touch d (p, m) (pool_of (get_elem? slots i), n) i ∙ h.complete i n e;
  }

  with_quota-SameKey :
      (s : Slot N) (mode_id : ℕ) (remaining : ℤ) (reset_s : ℕ)
      → SameKey s (with_quota s mode_id remaining reset_s)
  unfolding with_quota
  with_quota-SameKey s mode_id remaining reset_s = record {
    pool = refl;
    status = refl;
    window = refl;
  }

  quota_updated-IsConsistent :
      (t : Table N) (idx : ℕ) (s : Slot N) (mode_id : ℕ) (remaining : ℤ) (reset_s : ℕ)
      → get_elem? t.slots idx ≡ some s
      → mode_id ≤ 4
      → IsConsistent t
      → IsConsistent (quota_updated t idx s mode_id remaining reset_s)
  unfolding write with_quota
  quota_updated-IsConsistent t idx s mode_id remaining reset_s here le h =
      let s' = with_quota s mode_id remaining reset_s in
      let k = with_quota-SameKey s mode_id remaining reset_s in
      let kept = set-IsIndexed t.slots idx s s' here k t.mode_available h in
      let now_here = get_elem?-set_self t.slots idx s' s here in
      elim (Bool-cases (is_active s.status_id)) [
        | inr off ↦ rw off kept
        | inl on ↦ rw on (elim (Bool-cases (ltb 0 (col s.window mode_id))) [
          | inl wide ↦ rw wide (
              add_at-IsIndexed (set t.slots idx s') t.mode_available idx mode_id s' now_here on le
                kept)
          | inr none_left ↦
              rw none_left
                (touch-IsIndexed (set t.slots idx s') t.mode_available s.pool_id mode_id kept)
        ])
      ]

  -- Upstream's numbers for a mode.
  pub apply_quota_update-IsConsistent :
      (t t' : Table N) (idx mode_id : ℕ) (remaining : ℤ) (reset_s : ℕ)
      → mode_id ≤ 4
      → apply_quota_update t idx mode_id remaining reset_s ≡ ok t'
      → IsConsistent t
      → IsConsistent t'
  unfolding apply_quota_update
  apply_quota_update-IsConsistent t t' idx mode_id remaining reset_s le e h =
      let (s, here, result) = slot_at-bind t idx _ e in
      let same : t' ≡ quota_updated t idx s mode_id remaining reset_s = cc in
      rw same (quota_updated-IsConsistent t idx s mode_id remaining reset_s here le h)
