-- ===== src/Proxy/Flights/Wakes.antt =====
-- No waiter is forgotten (app/control/proxy/__init__.py, _get_or_build_bundle).
use grok2apinew.Prelude.{
  ℕ, ◌≡◌, refl, sym, ◌∙◌, ap, ◌⊎◌, inl, inr, true, false, Option, none, some, arith, ◌==◌,
  Bool-cases,
}
use grok2apinew.Proxy.{ClearanceBundle}
use grok2apinew.Proxy.Bundles.{BundleKey, key_eq, key_eq→≡, lookup, lookup-insert}
use grok2apinew.Proxy.Directory.{ProxyDirectory}
use grok2apinew.Proxy.Flights.{
  Local, entering, waiting, refreshing, finishing, returned, Flight, goto, join_or_win,
  return_or_join, stored, answer,
}

-- The key and the event of the refresh that a coroutine is at.
unfoldable pub held : Local → Option (BundleKey × ℕ)
held (refreshing key event) = some (key, event)
held (finishing key event outcome) = some (key, event)
held _ = none

abbrev pub IsHeld : (ℕ → Local) → BundleKey → ℕ → Type 0
IsHeld at key event = (c : ℕ) × (held (at c) ≡ some (key, event))

-- Every event on record is of a refresh under way, and so is every event that is waited for and not set.
pub record IsWoken (s : Flight) : Type 0 where
  pub events :
      (key : BundleKey) (event : ℕ)
      → lookup key s.directory.refresh_events ≡ some event
      → IsHeld s.at key event
  pub waiters :
      (c : ℕ) (key : BundleKey) (event : ℕ)
      → s.at c ≡ waiting key event
      → (s.fired event ≡ true) ⊎ IsHeld s.at key event

module _ (c : ℕ) (v : Local) (at : ℕ → Local) where
  pub held-goto : held v ≡ held (at c) → (i : ℕ) → held (goto c v at i) ≡ held (at i)
  held-goto same i = ground (arith, same)

  still_held :
      held v ≡ held (at c)
      → (key : BundleKey) (event : ℕ) → IsHeld at key event
      → IsHeld (goto c v at) key event
  still_held same key event (i, h) = (i, held-goto same i ∙ h)

  pub goto_self : goto c v at c ≡ v
  goto_self = ground arith

  pub goto_cases : (i : ℕ) (w : Local) → goto c v at i ≡ w → (v ≡ w) ⊎ (at i ≡ w)
  goto_cases i w e = elim (Bool-cases (c == i)) [
    | inl here ↦ inl (rw here at e)
    | inr there ↦ inr (rw there at e)
  ]

-- A coroutine goes on, and neither takes up a refresh nor ends one.
pub quiet :
    (s : Flight) (c : ℕ) (v : Local)
    → held v ≡ held (s.at c)
    → ((key : BundleKey) (event : ℕ)
        → v ≡ waiting key event
        → (s.fired event ≡ true) ⊎ IsHeld s.at key event)
    → IsWoken s
    → IsWoken (record s { at = goto c v s.at })
quiet s c v same joins h = record {
  events = λ key event e. still_held c v s.at same key event (h.events key event e);
  waiters = λ i key event e.
      let before : (s.fired event ≡ true) ⊎ IsHeld s.at key event =
        elim (goto_cases c v s.at i (waiting key event) e) [
          | inl new ↦ joins key event new
          | inr old ↦ h.waiters i key event old
        ] in
      elim before [ inl set ↦ inl set | inr on ↦ inr (still_held c v s.at same key event on) ];
}

pub held_of_entering : (l : Local) (key : BundleKey) → l ≡ entering key → held l ≡ none
unfolding held
held_of_entering l key e = rw e refl

-- The others hold what they held.
pub other_holder :
    (c : ℕ) (v : Local) (at : ℕ → Local) (key : BundleKey) (event i : ℕ)
    → (c == i) ≡ false
    → held (at i) ≡ some (key, event)
    → IsHeld (goto c v at) key event
other_holder c v at key event i ne h = (i, rw ne h)

others_held :
    (c : ℕ) (v : Local) (at : ℕ → Local) (key : BundleKey) (event : ℕ)
    → held (at c) ≡ none
    → IsHeld at key event
    → IsHeld (goto c v at) key event
others_held c v at key event free (i, h) = elim (Bool-cases (c == i)) [
  | inl here ↦
      let same : c ≡ i = ground arith in
      let impossible : ◌≡◌ {A = Option (BundleKey × ℕ)} none (some (key, event)) =
        sym free ∙ rw same h in
      cc
  | inr there ↦ other_holder c v at key event i there h
]

winner :
    (c : ℕ) (at : ℕ → Local) (key j : BundleKey) (n event : ℕ)
    → key_eq key j ≡ true
    → some n ≡ some event
    → IsHeld (goto c (refreshing key n) at) j event
unfolding held
winner c at key j n event same e =
    let number : n ≡ event = cc in
    (c, rw (goto_self c (refreshing key n) at, key_eq→≡ key j same, number) refl)

won :
    (s : Flight) (c : ℕ) (key : BundleKey)
    → s.at c ≡ entering key
    → IsWoken s
    → IsWoken (join_or_win none key c s)
unfolding held
won s c key here h =
    let free = held_of_entering (s.at c) key here in
    let v = refreshing key s.next_event in
    record {
      events = λ j event e. elim (Bool-cases (key_eq key j)) [
        | inl same ↦
            winner c s.at key j s.next_event event same
              (rw (lookup-insert key j s.next_event s.directory.refresh_events, same) at e)
        | inr other ↦ others_held c v s.at j event free (
            h.events j event
              (rw (lookup-insert key j s.next_event s.directory.refresh_events, other) at e))
      ];
      waiters = λ i j event e.
          let before : (s.fired event ≡ true) ⊎ IsHeld s.at j event =
            elim (goto_cases c v s.at i (waiting j event) e) [
              | inl new ↦ cc
              | inr old ↦ h.waiters i j event old
            ] in
          elim before [ inl set ↦ inl set | inr on ↦ inr (others_held c v s.at j event free on) ];
    }

joined :
    (o : Option ℕ) (s : Flight) (c : ℕ) (key : BundleKey)
    → lookup key s.directory.refresh_events ≡ o
    → s.at c ≡ entering key
    → IsWoken s
    → IsWoken (join_or_win o key c s)
unfolding held
joined none s c key known here h = won s c key here h
joined (some event) s c key known here h =
    quiet s c (waiting key event) (sym (held_of_entering (s.at c) key here))
      (λ j e same.
        inr (h.events j e (let k : key ≡ j = cc in let n : event ≡ e = cc in rw (← k, ← n) known)))
      h

pub entered :
    (o : Option ClearanceBundle) (s : Flight) (c : ℕ) (key : BundleKey)
    → s.at c ≡ entering key
    → IsWoken s
    → IsWoken (return_or_join o key c s)
unfolding held
entered none s c key here h = joined (lookup key s.directory.refresh_events) s c key refl here h
entered (some bundle) s c key here h =
    quiet s c (returned (some bundle)) (sym (held_of_entering (s.at c) key here)) (λ j e same. cc) h

-- A directory in which every event was there before.
pub other_directory :
    (s : Flight) (d : ProxyDirectory)
    → ((key : BundleKey) (event : ℕ)
        → lookup key d.refresh_events ≡ some event
        → lookup key s.directory.refresh_events ≡ some event)
    → IsWoken s
    → IsWoken (record s { directory = d })
other_directory s d fewer h = record {
  events = λ key event e. h.events key event (fewer key event e);
  waiters = h.waiters;
}

pub stored-refresh_events :
    (found : Option ClearanceBundle) (key : BundleKey) (d : ProxyDirectory)
    → (stored found key d).refresh_events ≡ d.refresh_events
stored-refresh_events none key d = refl
stored-refresh_events (some bundle) key d = refl

pub held_of_refreshing :
    (l : Local) (key : BundleKey) (event : ℕ)
    → l ≡ refreshing key event
    → some (key, event) ≡ held l
unfolding held
held_of_refreshing l key event e = rw e refl

pub answered :
    (s : Flight) (c : ℕ) (key : BundleKey) (event : ℕ) (found : Option ClearanceBundle)
    → s.at c ≡ refreshing key event
    → IsWoken s
    → IsWoken (answer found key event c s)
unfolding answer held
answered s c key event found here h =
    other_directory (record s { at = goto c (finishing key event (some found)) s.at })
      (stored found key s.directory)
      (λ j e there. rw (stored-refresh_events found key s.directory) at there)
      (quiet s c (finishing key event (some found)) (held_of_refreshing (s.at c) key event here)
        (λ j e same. cc) h)

-- A holder of another event is not the one that ends.
pub other_event :
    (s : Flight) (c i : ℕ) (v : Local) (key j : BundleKey) (event e : ℕ)
    → held (s.at c) ≡ some (key, event)
    → held (s.at i) ≡ some (j, e)
    → (event == e) ≡ false
    → IsHeld (goto c v s.at) j e
other_event s c i v key j event e mine its ne = elim (Bool-cases (c == i)) [
  | inl here ↦
      let same : c ≡ i = ground arith in
      let pairs : ◌≡◌ {A = Option (BundleKey × ℕ)} (some (key, event)) (some (j, e)) =
        sym mine ∙ ap (λ x. held (s.at x)) same ∙ its in
      let equal : event ≡ e = cc in absurd (ground arith)
  | inr there ↦ other_holder c v s.at j e i there its
]
