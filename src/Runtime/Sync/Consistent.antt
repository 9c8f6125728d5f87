-- ===== src/Runtime/Sync/Consistent.antt =====
-- The synchronisation of app/dataplane/account/sync.py keeps the selection indexes right.
use grok2apinew.Prelude.{
  ℕ, ◌≡◌, String, Bool, true, false, Option, none, some, List, [], ◌∷◌, ◌||◌, Bool-cases, inl, inr,
  get_elem?, length, ltb, if◌then◌else◌,
}
use grok2apinew.Prelude.Int.{ℤ}
use grok2apinew.Prelude.Result.{ok, >>=-eq-ok}
use grok2apinew.Prelude.SetMap.{pair_eq, String_eq}
use grok2apinew.Prelude.Float.{Float}
use grok2apinew.Account.Models.{AccountRecord, is_deleted}
use grok2apinew.Account.StateMachine.Status.{Conversions}
use grok2apinew.Runtime.Slot.{Slot, SlotArgs, deleted, all_mode_ids}
use grok2apinew.Runtime.Table.{
  Table, make_empty_table, remove_from_indexes, remove_modes, append_slot, update_slot,
}
use grok2apinew.Runtime.Table.Access.{slot_at-bind}
use grok2apinew.Runtime.Table.Writers.{
  IsConsistent, make_empty_table-IsConsistent, append_slot-IsConsistent, overwrite-IsIndexed,
  update_slot-IsConsistent,
}
use grok2apinew.Runtime.Sync.{
  mark_deleted, AccountChangeSet, RuntimeSnapshot, delete_at, delete_slot, delete_each,
  record_to_slot_args, load_each, bootstrap, place, apply_item, apply_items, apply_changeset,
  apply_changes, old_tags_of,
}

module _ {N : Type 0} where
  -- What _remove_from_indexes leaves.
  removed-eq :
      (t t' : Table N) (idx : ℕ)
      → remove_from_indexes t idx ≡ ok t'
      → (s : Slot N) × (get_elem? t.slots idx ≡ some s)
        × (t' ≡ record t {
          mode_available = remove_modes all_mode_ids s.pool_id idx t.mode_available;
        })
  unfolding remove_from_indexes
  removed-eq t t' idx e = let (s, here, last) = slot_at-bind t idx _ e in (s, here, cc)

  mark_deleted-IsConsistent :
      (t removed : Table N) (idx : ℕ) (s s' : Slot N)
      → get_elem? t.slots idx ≡ some s
      → removed
        ≡ record t { mode_available = remove_modes all_mode_ids s.pool_id idx t.mode_available }
      → IsConsistent t
      → IsConsistent (mark_deleted removed idx s')
  unfolding mark_deleted
  mark_deleted-IsConsistent t removed idx s s' here out h = rw out (
      overwrite-IsIndexed t.slots t.mode_available idx s (record s' { status_id = deleted }) here h)

  kept :
      {B : Type 0} (t : Table N) (b : B) (r : Table N × B)
      → ok (t, b) ≡ ok r
      → IsConsistent t
      → IsConsistent r.0
  kept t b r e h = let same : (t, b) ≡ r = cc in rw (← same) h

  delete_at-IsConsistent :
      (t : Table N) (found : Option ℕ) (r : Table N × Bool)
      → delete_at t found ≡ ok r
      → IsConsistent t
      → IsConsistent r.0
  delete_at-IsConsistent t none r e h = kept t false r e h
  delete_at-IsConsistent t (some idx) r e h =
      let (removed, first, rest) = >>=-eq-ok (remove_from_indexes t idx) _ e in
      let (s, here, out) = removed-eq t removed idx first in
      let (s', _, last) = slot_at-bind removed idx _ rest in
      kept (mark_deleted removed idx s') true r last
        (mark_deleted-IsConsistent t removed idx s s' here out h)

  delete_slot-IsConsistent :
      (t : Table N) (token : String) (r : Table N × Bool)
      → delete_slot t token ≡ ok r
      → IsConsistent t
      → IsConsistent r.0
  unfolding delete_slot
  delete_slot-IsConsistent t token r e h = delete_at-IsConsistent t (t.idx_by_token token) r e h

  delete_each-IsConsistent :
      (t : Table N) (tokens : List String) (changed : Bool) (r : Table N × Bool)
      → delete_each t tokens changed ≡ ok r
      → IsConsistent t
      → IsConsistent r.0
  unfolding delete_each
  delete_each-IsConsistent t [] changed r e h = kept t changed r e h
  delete_each-IsConsistent t (token ∷ tokens) changed r e h =
      let (r₁, first, rest) = >>=-eq-ok (delete_slot t token) _ e in
      delete_each-IsConsistent r₁.0 tokens (changed || r₁.1) r rest
        (delete_slot-IsConsistent t token r₁ first h)

  append_slot-kept :
      (t : Table N) (token : String) (args : SlotArgs N) (r : Table N × ℕ)
      → append_slot t token args ≡ ok r
      → IsConsistent t
      → IsConsistent r.0
  append_slot-kept t token args r e h =
      let (t', done, good) = append_slot-IsConsistent t token args h in
      let same : (t', length t.slots) ≡ r = cc (done, e) in rw (← same) good

  update_slot-kept :
      (t t' : Table N) (idx : ℕ) (args : SlotArgs N) (old_tags : List String)
      → update_slot t idx args old_tags ≡ ok t'
      → IsConsistent t
      → IsConsistent t'
  unfolding update_slot
  update_slot-kept t t' idx args old_tags e h =
      let (removed, first, _) = >>=-eq-ok (remove_from_indexes t idx) _ e in
      let (s, here, _) = removed-eq t removed idx first in
      let (t₁, done, good) = update_slot-IsConsistent t idx s args old_tags here h in
      let same : t₁ ≡ t' = cc (done, e) in rw (← same) good

module _ (f : Float) (conversions : Conversions) (now : ℤ) where
  place-IsConsistent :
      (t t' : Table f.Number) (found : Option ℕ) (token : String) (args : SlotArgs f.Number)
      → place f conversions now t found token args ≡ ok t'
      → IsConsistent t
      → IsConsistent t'
  place-IsConsistent t t' none token args e h =
      let (r, first, last) = >>=-eq-ok (append_slot t token args) _ e in
      let same : r.0 ≡ t' = cc in rw (← same) (append_slot-kept t token args r first h)
  place-IsConsistent t t' (some idx) token args e h =
      update_slot-kept t t' idx args (old_tags_of t.tag_idx idx) e h

  apply_item-IsConsistent :
      (t : Table f.Number) (r : AccountRecord) (changed : Bool) (o : Table f.Number × Bool)
      → apply_item f conversions now t r changed ≡ ok o
      → IsConsistent t
      → IsConsistent o.0
  unfolding apply_item
  apply_item-IsConsistent t r changed o e h = elim (Bool-cases (is_deleted r)) [
    | inl gone ↦
        let (r₁, first, last) = >>=-eq-ok (delete_slot t r.token) _ (rw gone at e) in
        kept r₁.0 (changed || r₁.1) o last (delete_slot-IsConsistent t r.token r₁ first h)
    | inr live ↦
        let (args, _, e₁) = >>=-eq-ok (record_to_slot_args f conversions now r) _ (rw live at e) in
        let (t₁, placed, last) =
          >>=-eq-ok (place f conversions now t (t.idx_by_token r.token) r.token args) _ e₁ in
        kept t₁ true o last (place-IsConsistent t t₁ (t.idx_by_token r.token) r.token args placed h)
  ]

module _ (f : Float) (conversions : Conversions) (clock : ℕ → ℤ) where
  load_each-IsConsistent :
      (rs : List AccountRecord) (t t' : Table f.Number)
      → load_each f conversions clock t rs ≡ ok t'
      → IsConsistent t
      → IsConsistent t'
  unfolding load_each
  load_each-IsConsistent [] t t' e h = let same : t ≡ t' = cc in rw (← same) h
  load_each-IsConsistent (r ∷ rs) t t' e h = elim (Bool-cases (is_deleted r)) [
    | inl gone ↦ load_each-IsConsistent rs t t' (rw gone at e) h
    | inr live ↦
        let (args, _, e₁) =
          >>=-eq-ok (record_to_slot_args f conversions (clock (length rs)) r) _ (rw live at e) in
        let (r₁, first, e₂) = >>=-eq-ok (append_slot t r.token args) _ e₁ in
        load_each-IsConsistent rs r₁.0 t' e₂ (append_slot-kept t r.token args r₁ first h)
  ]

  -- The table that bootstrap builds from a snapshot has consistent indexes.
  pub bootstrap-IsConsistent :
      (snapshot : RuntimeSnapshot) (t : Table f.Number)
      → bootstrap f conversions clock snapshot ≡ ok t
      → IsConsistent t
  unfolding bootstrap
  bootstrap-IsConsistent snapshot t e =
      let (t₁, loaded, last) =
        >>=-eq-ok (load_each f conversions clock make_empty_table snapshot.items) _ e in
      let good =
        load_each-IsConsistent snapshot.items make_empty_table t₁ loaded
          make_empty_table-IsConsistent in
      let same : record t₁ { revision = snapshot.revision } ≡ t = cc in rw (← same) good

  apply_items-IsConsistent :
      (rs : List AccountRecord) (t : Table f.Number) (changed : Bool) (o : Table f.Number × Bool)
      → apply_items f conversions clock t rs changed ≡ ok o
      → IsConsistent t
      → IsConsistent o.0
  unfolding apply_items
  apply_items-IsConsistent [] t changed o e h = kept t changed o e h
  apply_items-IsConsistent (r ∷ rs) t changed o e h =
      let (o₁, first, rest) =
        >>=-eq-ok (apply_item f conversions (clock (length rs)) t r changed) _ e in
      apply_items-IsConsistent rs o₁.0 o₁.1 o rest
        (apply_item-IsConsistent f conversions (clock (length rs)) t r changed o₁ first h)

  with_revision :
      (b : Bool) (t : Table f.Number) (n : ℕ)
      → IsConsistent t
      → IsConsistent (if b then record t { revision = n } else t)
  with_revision true t n h = h
  with_revision false t n h = h

  apply_changeset-IsConsistent :
      (t : Table f.Number) (changes : AccountChangeSet) (changed : Bool) (o : Table f.Number × Bool)
      → apply_changeset f conversions clock t changes changed ≡ ok o
      → IsConsistent t
      → IsConsistent o.0
  unfolding apply_changeset
  apply_changeset-IsConsistent t changes changed o e h =
      let (o₁, first, e₁) = >>=-eq-ok (delete_each t changes.deleted_tokens changed) _ e in
      let (o₂, second, last) =
        >>=-eq-ok (apply_items f conversions clock o₁.0 changes.items o₁.1) _ e₁ in
      kept
        (if ltb o₂.0.revision changes.revision
          then record o₂.0 { revision = changes.revision }
          else o₂.0)
        o₂.1 o last
        (with_revision (ltb o₂.0.revision changes.revision) o₂.0 changes.revision (
          apply_items-IsConsistent changes.items o₁.0 o₁.1 o₂ second
            (delete_each-IsConsistent t changes.deleted_tokens changed o₁ first h)))

module _ (f : Float) (conversions : Conversions) (clock : ℕ → ℕ → ℤ) where
  -- Change sets, however many the repository has more of, keep the indexes consistent, if no record in
  -- them raises.
  pub apply_changes-IsConsistent :
      (batches : List AccountChangeSet) (t : Table f.Number) (changed : Bool)
      (o : Table f.Number × Bool)
      → apply_changes f conversions clock t batches changed ≡ ok o
      → IsConsistent t
      → IsConsistent o.0
  unfolding apply_changes
  apply_changes-IsConsistent [] t changed o e h = kept t changed o e h
  apply_changes-IsConsistent (changes ∷ later) t changed o e h =
      let (o₁, first, rest) =
        >>=-eq-ok (apply_changeset f conversions (clock (length later)) t changes changed) _ e in
      let good =
        apply_changeset-IsConsistent f conversions (clock (length later)) t changes changed o₁ first
          h in
      elim (Bool-cases changes.has_more) [
        | inl more ↦ apply_changes-IsConsistent later o₁.0 o₁.1 o (rw more at rest) good
        | inr done ↦ kept o₁.0 o₁.1 o (rw done at rest) good
      ]
