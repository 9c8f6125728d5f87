-- ===== src/Proxy/Flights/Waits.antt =====
-- Any sequence of steps of the coroutines, with loads between them (app/control/proxy/__init__.py).
use grok2apinew.Prelude.{
  ℕ, ◌≡◌, refl, sym, ◌∙◌, ap, ◌⊎◌, inl, inr, String, true, false, Option, none, some, arith, ◌==◌,
  Bool-cases,
}
use grok2apinew.Proxy.{ClearanceMode, no_clearance, ClearanceBundle, ProxyLease, ProxyFeedback}
use grok2apinew.Proxy.Bundles.{
  BundleKey, key_eq, key_eq_refl, lookup, lookup-erase, lookup-keep_keys,
}
use grok2apinew.Proxy.Directory.{
  ProxyConfig, ProxyDirectory, invalidate_clearance, feedback, feedback_bundle, feedback_cursor,
}
use grok2apinew.Proxy.Load.{load, reloaded, is_kept}
use grok2apinew.Proxy.Flights.{
  Local, idle, entering, waiting, finishing, Flight, goto, valid_bundle, enter, ending, finish,
  begin, Step, calls, enters, wakes, answers, raises, finishes, feeds, invalidates, AnyStep, steps,
  loads, start,
}
use grok2apinew.Proxy.Flights.Wakes.{
  held, IsHeld, IsWoken, goto_cases, quiet, entered, other_directory, answered, other_holder,
  other_event, held_of_refreshing,
}

other_key :
    (s : Flight) (c i : ℕ) (v : Local) (key j : BundleKey) (event e : ℕ)
    → held (s.at c) ≡ some (key, event)
    → held (s.at i) ≡ some (j, e)
    → key_eq key j ≡ false
    → IsHeld (goto c v s.at) j e
other_key s c i v key j event e mine its ne = elim (Bool-cases (c == i)) [
  | inl here ↦
      let same : c ≡ i = ground arith in
      let pairs : ◌≡◌ {A = Option (BundleKey × ℕ)} (some (key, event)) (some (j, e)) =
        sym mine ∙ ap (λ x. held (s.at x)) same ∙ its in
      let equal : key ≡ j = cc in
      let impossible : true ≡ false = sym (key_eq_refl key) ∙ rw (← equal) at ne in cc
  | inr there ↦ other_holder c v s.at j e i there its
]

pub held_of_finishing :
    (l : Local) (key : BundleKey) (event : ℕ) (outcome : Option (Option ClearanceBundle))
    → l ≡ finishing key event outcome
    → held l ≡ some (key, event)
unfolding held
held_of_finishing l key event outcome e = rw e refl

pub ends_nowhere :
    (outcome : Option (Option ClearanceBundle)) (key : BundleKey) (event : ℕ)
    → ¬ (ending outcome ≡ waiting key event)
ends_nowhere none key event e = cc
ends_nowhere (some found) key event e = cc

finished :
    (s : Flight) (c : ℕ) (key : BundleKey) (event : ℕ) (outcome : Option (Option ClearanceBundle))
    → s.at c ≡ finishing key event outcome
    → IsWoken s
    → IsWoken (finish outcome key event c s)
unfolding finish
finished s c key event outcome here h =
    let mine = held_of_finishing (s.at c) key event outcome here in
    let v = ending outcome in
    record {
      events = λ j e there. elim (Bool-cases (key_eq key j)) [
        | inl same ↦
            let impossible : none ≡ some e =
              rw (lookup-erase key j s.directory.refresh_events, same) at there in
            cc
        | inr other ↦
            let (i, its) =
              h.events j e (rw (lookup-erase key j s.directory.refresh_events, other) at there) in
            other_key s c i v key j event e mine its other
      ];
      waiters = λ i j e at.
          let before : (s.fired e ≡ true) ⊎ IsHeld s.at j e =
            elim (goto_cases c v s.at i (waiting j e) at) [
              | inl new ↦ absurd (ends_nowhere outcome j e new)
              | inr old ↦ h.waiters i j e old
            ] in
          elim (Bool-cases (event == e)) [
            | inl same ↦ inl (rw same refl)
            | inr other ↦ elim before [
              | inl set ↦ inl (rw (other, set) refl)
              | inr (k, its) ↦ inr (other_event s c k v key j event e mine its other)
            ]
          ];
    }

begins :
    (mode : ClearanceMode) (key j : BundleKey) (event : ℕ) → ¬ (begin mode key ≡ waiting j event)
begins no_clearance key j event e = cc
begins _ key j event e = cc

pub held-begin : (mode : ClearanceMode) (key : BundleKey) → held (begin mode key) ≡ none
unfolding held
held-begin no_clearance key = refl
held-begin _ key = refl

pub held_of_idle : (l : Local) → l ≡ idle → held l ≡ none
unfolding held
held_of_idle l e = rw e refl

pub held_of_waiting :
    (l : Local) (key : BundleKey) (event : ℕ) → l ≡ waiting key event → none ≡ held l
unfolding held
held_of_waiting l key event e = rw e refl

pub feedback-refresh_events :
    (lease : ProxyLease) (result : ProxyFeedback) (d : ProxyDirectory)
    → (feedback lease result d).refresh_events ≡ d.refresh_events
unfolding feedback feedback_bundle feedback_cursor
feedback-refresh_events lease result d = ground arith

Step-IsWoken : {s s' : Flight} → Step s s' → IsWoken s → IsWoken s'
unfolding held invalidate_clearance
Step-IsWoken {s} (calls c key here) h =
    let mode = s.directory.clearance_mode in
    quiet s c (begin mode key) (held-begin mode key ∙ sym (held_of_idle (s.at c) here))
      (λ j e same. absurd (begins mode key j e same)) h
Step-IsWoken {s} (enters c key here) h =
    unfold enter in entered (valid_bundle key s.directory) s c key here h
Step-IsWoken {s} (wakes c key event here set) h =
    quiet s c (entering key) (held_of_waiting (s.at c) key event here) (λ j e same. cc) h
Step-IsWoken {s} (answers c key event found here) h = answered s c key event found here h
Step-IsWoken {s} (raises c key event here) h =
    quiet s c (finishing key event none) (held_of_refreshing (s.at c) key event here)
      (λ j e same. cc) h
Step-IsWoken {s} (finishes c key event outcome here) h = finished s c key event outcome here h
Step-IsWoken {s} (feeds lease result) h =
    other_directory s (feedback lease result s.directory)
      (λ j e there. rw (feedback-refresh_events lease result s.directory) at there) h
Step-IsWoken {s} invalidates h =
    other_directory s (invalidate_clearance s.directory) (λ j e there. there) h

module _ (text_of_int : ℕ → String) where
  reloaded-events :
      (cfg : ProxyConfig) (d : ProxyDirectory) (key : BundleKey) (event : ℕ)
      → lookup key (reloaded text_of_int cfg d).refresh_events ≡ some event
      → lookup key d.refresh_events ≡ some event
  unfolding reloaded
  reloaded-events cfg d key event e =
      ground (arith, lookup-keep_keys (is_kept text_of_int cfg) key d.refresh_events)

  load-events :
      (cfg : ProxyConfig) (d : ProxyDirectory) (key : BundleKey) (event : ℕ)
      → lookup key (load text_of_int cfg d).refresh_events ≡ some event
      → lookup key d.refresh_events ≡ some event
  unfolding load
  load-events cfg d key event e = ground (arith, reloaded-events cfg d key event)

  AnyStep-IsWoken : {s s' : Flight} → AnyStep text_of_int s s' → IsWoken s → IsWoken s'
  AnyStep-IsWoken (steps step) h = Step-IsWoken step h
  AnyStep-IsWoken {s} (loads cfg) h =
      other_directory s (load text_of_int cfg s.directory) (load-events cfg s.directory) h

  -- What a directory becomes, from a moment at which no refresh is under way.
  pub data Reachable (d : ProxyDirectory) : Flight → Type 0 where
    starts : Reachable d (start d)
    goes : {s s' : Flight} → Reachable d s → AnyStep text_of_int s s' → Reachable d s'

  reached-IsWoken : (d : ProxyDirectory) (s : Flight) → Reachable d s → IsWoken s
  unfolding start lookup
  reached-IsWoken d s starts = record { events = λ key event e. cc; waiters = λ c key event e. cc }
  reached-IsWoken d s (goes {s = before} r step) = AnyStep-IsWoken step (reached-IsWoken d before r)

  -- Whatever the coroutines do, with any answers of the providers and any loads of configurations between
  -- their steps, a coroutine that waits for an event waits for one that is set, or that a coroutine sets
  -- which is refreshing the same key.
  pub no_lost_wake :
      (d : ProxyDirectory) (s : Flight) (c : ℕ) (key : BundleKey) (event : ℕ)
      → Reachable d s
      → s.at c ≡ waiting key event
      → (s.fired event ≡ true) ⊎ IsHeld s.at key event
  no_lost_wake d s c key event r here = let h = reached-IsWoken d s r in h.waiters c key event here
