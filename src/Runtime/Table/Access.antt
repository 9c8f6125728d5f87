-- ===== src/Runtime/Table/Access.antt =====
-- Reads of a slot by its index (app/dataplane/account/table.py).
use grok2apinew.Prelude.{ℕ, ◌≡◌, some, get_elem?, arith}
use grok2apinew.Prelude.Result.{ok, ◌>>=◌, Result, >>=-eq-ok}
use grok2apinew.Runtime.Slot.{Slot}
use grok2apinew.Runtime.Table.{Table, slot_at}

module _ {N : Type 0} where
  pub slot_at-ok :
      (t : Table N) (idx : ℕ) (s : Slot N) → get_elem? t.slots idx ≡ some s → slot_at t idx ≡ ok s
  unfolding slot_at
  slot_at-ok t idx s h = rw h

  pub slot_at-eq-ok :
      (t : Table N) (idx : ℕ) (s : Slot N) → slot_at t idx ≡ ok s → get_elem? t.slots idx ≡ some s
  unfolding slot_at
  slot_at-eq-ok t idx s h = ground arith

  -- What follows a read that succeeded.
  pub slot_at-bind {ℓ} :
      {B : Type ℓ} (t : Table N) (idx : ℕ) (rest : Slot N → Result B) {b : B}
      → (slot_at t idx >>= rest) ≡ ok b
      → (s : Slot N) × (get_elem? t.slots idx ≡ some s) × (rest s ≡ ok b)
  slot_at-bind t idx rest h =
      let (s, read, more) = >>=-eq-ok (slot_at t idx) rest h in
      (s, slot_at-eq-ok t idx s read, more)
