-- ===== src/Runtime/Table/Writers.antt =====
-- The two writers of whole slots keep the selection indexes right
-- (app/dataplane/account/table.py, _append_slot and _update_slot).
use text.Mathlib.Text.{◌==◌ as str_eq}
use grok2apinew.Prelude.{
  ℕ, ◌≡◌, ◌∙◌, some, List, [], ◌∷◌, ◌++◌, String, arith, Bool-cases, inl, inr, ◌+◌, length,
  get_elem?, set, if◌then◌else◌, get_elem?-set_self, get_elem?-set_ne, get_elem?-append_last,
  get_elem?-append_ne, get_elem?-length,
}
use grok2apinew.Prelude.Result.{ok}
use grok2apinew.Prelude.SetMap.{SetMap, pair_eq, holds}
use grok2apinew.Runtime.Slot.{Slot, SlotArgs, is_active, all_mode_ids}
use grok2apinew.Prelude.IntSet.{mem}
use grok2apinew.Runtime.Table.{
  Table, make_empty_table, remove_modes, new_slot, overwritten, append_slot, update_slot, add_tags,
  remove_tags,
}
use grok2apinew.Runtime.Table.Invariant.{
  IsIndexed, fits, expects, pool_of, enter, entered-IsIndexed, holds-removed,
}

module _ {N : Type 0} where
  -- Every index entry is a live, active slot of the entry's pool, and every active slot stands in the
  -- entry of its pool and of each mode for which it has a window.
  abbrev pub IsConsistent : Table N → Type 0
  IsConsistent t = IsIndexed t.slots t.mode_available

  pub make_empty_table-IsConsistent : IsConsistent make_empty_table
  unfolding make_empty_table holds mem expects
  make_empty_table-IsConsistent = record { sound = λ p m i e. cc; complete = λ i m e. cc }

  append-IsIndexed :
      (slots : List (Slot N)) (d : SetMap (ℕ × ℕ)) (s : Slot N)
      → IsIndexed slots d
      → IsIndexed (slots ++ s ∷ []) (enter s (length slots) d)
  append-IsIndexed slots d s h =
      entered-IsIndexed slots (slots ++ s ∷ []) d (length slots) s (get_elem?-append_last slots s)
        (λ j ne. get_elem?-append_ne slots s j ne)
        (λ p m. unfold fits in ground (arith, h.sound p m (length slots), get_elem?-length slots))
        (λ p m i ne e. h.sound p m i e) (λ i m ne e. h.complete i m e)

  pub overwrite-IsIndexed :
      (slots : List (Slot N)) (d : SetMap (ℕ × ℕ)) (idx : ℕ) (s s' : Slot N)
      → get_elem? slots idx ≡ some s
      → IsIndexed slots d
      → IsIndexed (set slots idx s') (enter s' idx (remove_modes all_mode_ids s.pool_id idx d))
  overwrite-IsIndexed slots d idx s s' here h =
      entered-IsIndexed slots (set slots idx s') (remove_modes all_mode_ids s.pool_id idx d) idx s'
        (get_elem?-set_self slots idx s' s here) (λ j ne. get_elem?-set_ne slots idx j s' ne)
        (λ p m. holds-removed slots d idx s here h p m idx ∙ ground arith)
        (λ p m i ne e. h.sound p m i (ground (arith, holds-removed slots d idx s here h p m i)))
        (λ i m ne e. ground (
          arith,
          ne,
          holds-removed slots d idx s here h (pool_of (get_elem? slots i)) m i,
          h.complete i m e,
        ))

  -- The table that _append_slot leaves.
  abbrev pub appended : Table N → String → SlotArgs N → Table N
  appended t token args = record {
    slots = t.slots ++ new_slot token args ∷ [];
    idx_by_token =
        λ other. if str_eq token other then some (length t.slots) else t.idx_by_token other;
    mode_available = enter (new_slot token args) (length t.slots) t.mode_available;
    tag_idx = add_tags args.tags (length t.slots) t.tag_idx;
    revision = t.revision;
    size = t.size + 1;
  }

  pub append_slot-eq :
      (t : Table N) (token : String) (args : SlotArgs N)
      → append_slot t token args ≡ ok (appended t token args, length t.slots)
  unfolding append_slot
  append_slot-eq t token args =
      rw (get_elem?-append_last t.slots (new_slot token args))
        (elim (Bool-cases (is_active args.status_id)) [ inl e ↦ rw e | inr e ↦ rw e ])

  pub appended-IsConsistent :
      (t : Table N) (token : String) (args : SlotArgs N)
      → IsConsistent t
      → IsConsistent (appended t token args)
  appended-IsConsistent t token args h =
      append-IsIndexed t.slots t.mode_available (new_slot token args) h

  -- Appending a slot never raises, and keeps the indexes consistent with the columns.
  pub append_slot-IsConsistent :
      (t : Table N) (token : String) (args : SlotArgs N)
      → IsConsistent t
      → (t' : Table N) × (append_slot t token args ≡ ok (t', length t.slots)) × IsConsistent t'
  append_slot-IsConsistent t token args h =
      (appended t token args, append_slot-eq t token args, appended-IsConsistent t token args h)

  -- The table that _update_slot leaves, where the slot was `s`.
  abbrev pub rewritten : Table N → ℕ → Slot N → SlotArgs N → List String → Table N
  rewritten t idx s args old_tags = record t {
    slots = set t.slots idx (overwritten s args);
    mode_available =
        enter (overwritten s args) idx (remove_modes all_mode_ids s.pool_id idx t.mode_available);
    tag_idx = add_tags args.tags idx (remove_tags old_tags idx t.tag_idx);
  }

  pub update_slot-eq :
      (t : Table N) (idx : ℕ) (s : Slot N) (args : SlotArgs N) (old_tags : List String)
      → get_elem? t.slots idx ≡ some s
      → update_slot t idx args old_tags ≡ ok (rewritten t idx s args old_tags)
  unfolding update_slot
  update_slot-eq t idx s args old_tags here =
      simp (here, get_elem?-set_self t.slots idx (overwritten s args) s here)
        (elim (Bool-cases (is_active args.status_id)) [ inl e ↦ rw e | inr e ↦ rw e ])

  -- Rewriting a slot never raises where there is one, and keeps the indexes consistent with the columns.
  pub update_slot-IsConsistent :
      (t : Table N) (idx : ℕ) (s : Slot N) (args : SlotArgs N) (old_tags : List String)
      → get_elem? t.slots idx ≡ some s
      → IsConsistent t
      → (t' : Table N) × (update_slot t idx args old_tags ≡ ok t') × IsConsistent t'
  update_slot-IsConsistent t idx s args old_tags here h = (
    rewritten t idx s args old_tags,
    update_slot-eq t idx s args old_tags here,
    overwrite-IsIndexed t.slots t.mode_available idx s (overwritten s args) here h,
  )
