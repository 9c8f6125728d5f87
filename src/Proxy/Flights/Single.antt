-- ===== src/Proxy/Flights/Single.antt =====
-- At most one refresh for a key (app/control/proxy/__init__.py, _get_or_build_bundle), as long as no load
-- takes an event off the record.
use grok2apinew.Prelude.{
  ℕ, ◌≡◌, refl, sym, ◌∙◌, ◌⊎◌, inl, inr, false, Option, none, some, arith, ◌==◌, if◌then◌else◌,
  Bool-cases,
}
use grok2apinew.Proxy.{ClearanceBundle}
use grok2apinew.Proxy.Bundles.{
  BundleKey, KeyMap, key_eq, key_eq→≡, key_eq_refl, lookup, erase, lookup-insert, lookup-erase,
}
use grok2apinew.Proxy.Directory.{ProxyDirectory, invalidate_clearance, feedback}
use grok2apinew.Proxy.Flights.{
  Local, entering, waiting, refreshing, finishing, returned, Flight, goto, valid_bundle,
  join_or_win, return_or_join, enter, answer, ending, finish, begin, Step, calls, enters, wakes,
  answers, raises, finishes, feeds, invalidates, start,
}
use grok2apinew.Proxy.Flights.Wakes.{
  held, held-goto, held_of_entering, held_of_refreshing, stored-refresh_events,
}
use grok2apinew.Prelude.{◌<◌}
use grok2apinew.Proxy.Flights.Waits.{
  held_of_finishing, held-begin, held_of_idle, held_of_waiting, feedback-refresh_events,
}

abbrev pub Holds : (ℕ → Local) → ℕ → BundleKey → ℕ → Type 0
Holds at c key event = held (at c) ≡ some (key, event)

-- A refresh under way is the one on record for its key, and has an event of its own.
record IsSingle (s : Flight) : Type 0 where
  recorded :
      (c : ℕ) (key : BundleKey) (event : ℕ)
      → Holds s.at c key event
      → lookup key s.directory.refresh_events ≡ some event
  numbered : (c : ℕ) (key : BundleKey) (event : ℕ) → Holds s.at c key event → event < s.next_event
  alone :
      (c i : ℕ) (key j : BundleKey) (event : ℕ)
      → Holds s.at c key event
      → Holds s.at i j event
      → c ≡ i

goto-Holds :
    (c i : ℕ) (v : Local) (at : ℕ → Local) (key : BundleKey) (event : ℕ)
    → Holds (goto c v at) i key event
    → ((c ≡ i) × (held v ≡ some (key, event))) ⊎ (((c == i) ≡ false) × Holds at i key event)
goto-Holds c i v at key event h = elim (Bool-cases (c == i)) [
  | inl here ↦ inl (ground arith, rw here at h)
  | inr there ↦ inr (there, rw there at h)
]

-- A step after which every coroutine holds what it held, and the events on record are the same.
same_holders :
    (s s' : Flight)
    → s'.directory.refresh_events ≡ s.directory.refresh_events
    → s'.next_event ≡ s.next_event
    → ((i : ℕ) → held (s'.at i) ≡ held (s.at i))
    → IsSingle s
    → IsSingle s'
same_holders s s' events next same h = record {
  recorded = λ c key event e. rw events (h.recorded c key event (sym (same c) ∙ e));
  numbered = λ c key event e. rw next (h.numbered c key event (sym (same c) ∙ e));
  alone = λ c i key j event e k. h.alone c i key j event (sym (same c) ∙ e) (sym (same i) ∙ k);
}

goes_on :
    (s : Flight) (c : ℕ) (v : Local)
    → held v ≡ held (s.at c)
    → IsSingle s
    → IsSingle (record s { at = goto c v s.at })
goes_on s c v same h =
    same_holders s (record s { at = goto c v s.at }) refl refl (held-goto c v s.at same) h

other_recorded :
    (ev : KeyMap ℕ) (key j : BundleKey) (n event : ℕ)
    → lookup key ev ≡ none
    → lookup j ev ≡ some event
    → (if key_eq key j then some n else lookup j ev) ≡ some event
other_recorded ev key j n event free there = ground (arith, key_eq→≡ key j)

same_pair :
    (key j : BundleKey) (n event : ℕ)
    → ◌≡◌ {A = Option (BundleKey × ℕ)} (some (key, n)) (some (j, event))
    → n ≡ event
same_pair key j n event e = cc

new_alone :
    (s : Flight) (c i k : ℕ) (key j l : BundleKey) (event : ℕ)
    → Holds (goto c (refreshing key s.next_event) s.at) i j event
    → Holds (goto c (refreshing key s.next_event) s.at) k l event
    → IsSingle s
    → i ≡ k
unfolding held
new_alone s c i k key j l event e₁ e₂ h =
    let v = refreshing key s.next_event in
    elim (goto-Holds c i v s.at j event e₁) [
      | inl (here, new) ↦ elim (goto-Holds c k v s.at l event e₂) [
        | inl (here', _) ↦ sym here ∙ here'
        | inr (_, old) ↦
            let lt = h.numbered k l event old in
            let n = same_pair key j s.next_event event new in absurd (omega arith)
      ]
      | inr (_, old) ↦ elim (goto-Holds c k v s.at l event e₂) [
        | inl (_, new) ↦
            let lt = h.numbered i j event old in
            let n = same_pair key l s.next_event event new in absurd (omega arith)
        | inr (_, old') ↦ h.alone i k j l event old old'
      ]
    ]

-- The number of a new event is no other's, and its key was not on record.
won :
    (s : Flight) (c : ℕ) (key : BundleKey)
    → s.at c ≡ entering key
    → lookup key s.directory.refresh_events ≡ none
    → IsSingle s
    → IsSingle (join_or_win none key c s)
unfolding held
won s c key here free h =
    let v = refreshing key s.next_event in
    let ev = s.directory.refresh_events in
    record {
      recorded = λ i j event e. elim (goto-Holds c i v s.at j event e) [
        | inl (_, new) ↦
            let k : key ≡ j = cc in
            let n : s.next_event ≡ event = cc in
            rw (lookup-insert key j s.next_event ev, ← k, key_eq_refl key, n) refl
        | inr (_, old) ↦
            let there = h.recorded i j event old in
            rw (lookup-insert key j s.next_event ev)
              (other_recorded ev key j s.next_event event free there)
      ];
      numbered = λ i j event e. elim (goto-Holds c i v s.at j event e) [
        | inl (_, new) ↦ let n : s.next_event ≡ event = cc in ground arith
        | inr (_, old) ↦ let lt = h.numbered i j event old in omega arith
      ];
      alone = λ i k j l event e₁ e₂. new_alone s c i k key j l event e₁ e₂ h;
    }

joined :
    (p : Option ℕ) (s : Flight) (c : ℕ) (key : BundleKey)
    → lookup key s.directory.refresh_events ≡ p
    → s.at c ≡ entering key
    → IsSingle s
    → IsSingle (join_or_win p key c s)
unfolding held
joined none s c key known here h = won s c key here known h
joined (some event) s c key known here h =
    goes_on s c (waiting key event) (sym (held_of_entering (s.at c) key here)) h

got_in :
    (o : Option ClearanceBundle) (s : Flight) (c : ℕ) (key : BundleKey)
    → s.at c ≡ entering key
    → IsSingle s
    → IsSingle (return_or_join o key c s)
unfolding held
got_in none s c key here h = joined (lookup key s.directory.refresh_events) s c key refl here h
got_in (some bundle) s c key here h =
    goes_on s c (returned (some bundle)) (sym (held_of_entering (s.at c) key here)) h

held-ending : (outcome : Option (Option ClearanceBundle)) → held (ending outcome) ≡ none
unfolding held
held-ending none = refl
held-ending (some found) = refl

still_on :
    (outcome : Option (Option ClearanceBundle)) (at : ℕ → Local) (c i : ℕ) (j : BundleKey) (e : ℕ)
    → Holds (goto c (ending outcome) at) i j e
    → ((c == i) ≡ false) × Holds at i j e
still_on outcome at c i j e h = elim (goto-Holds c i (ending outcome) at j e h) [
  | inl (_, new) ↦
      let impossible : ◌≡◌ {A = Option (BundleKey × ℕ)} none (some (j, e)) =
        sym (held-ending outcome) ∙ new in
      cc
  | inr old ↦ old
]

-- What is still on record when the entry of the key goes.
kept_record :
    (s : Flight) (c i : ℕ) (key j : BundleKey) (event e : ℕ)
    → IsSingle s
    → Holds s.at c key event
    → (c == i) ≡ false
    → Holds s.at i j e
    → lookup j (erase key s.directory.refresh_events) ≡ some e
kept_record s c i key j event e h mine ne its =
    let ev = s.directory.refresh_events in
    let there = h.recorded i j e its in
    elim (Bool-cases (key_eq key j)) [
      | inl same ↦
          let k = key_eq→≡ key j same in
          let own : lookup j ev ≡ some event = rw (← k) (h.recorded c key event mine) in
          let both : some event ≡ some e = sym own ∙ there in
          let equal : event ≡ e = cc in
          let one = h.alone c i key j e (mine ∙ rw equal refl) its in absurd (ground arith)
      | inr other ↦ rw (lookup-erase key j ev, other) there
    ]

finished :
    (s : Flight) (c : ℕ) (key : BundleKey) (event : ℕ) (outcome : Option (Option ClearanceBundle))
    → s.at c ≡ finishing key event outcome
    → IsSingle s
    → IsSingle (finish outcome key event c s)
unfolding finish
finished s c key event outcome here h =
    let mine = held_of_finishing (s.at c) key event outcome here in
    record {
      recorded = λ i j e there.
          let (ne, its) = still_on outcome s.at c i j e there in
          kept_record s c i key j event e h mine ne its;
      numbered = λ i j e there. h.numbered i j e (still_on outcome s.at c i j e there).1;
      alone = λ i k j l e e₁ e₂.
          h.alone i k j l e (still_on outcome s.at c i j e e₁).1
            (still_on outcome s.at c k l e e₂).1;
    }

Step-IsSingle : {s s' : Flight} → Step s s' → IsSingle s → IsSingle s'
unfolding held invalidate_clearance
Step-IsSingle {s} (calls c key here) h =
    goes_on s c (begin s.directory.clearance_mode key)
      (held-begin s.directory.clearance_mode key ∙ sym (held_of_idle (s.at c) here)) h
Step-IsSingle {s} (enters c key here) h =
    unfold enter in got_in (valid_bundle key s.directory) s c key here h
Step-IsSingle {s} (wakes c key event here set) h =
    goes_on s c (entering key) (held_of_waiting (s.at c) key event here) h
Step-IsSingle {s} (answers c key event found here) h =
    unfold answer in
    same_holders s _ (stored-refresh_events found key s.directory) refl
      (held-goto c (finishing key event (some found)) s.at
        (held_of_refreshing (s.at c) key event here))
      h
Step-IsSingle {s} (raises c key event here) h =
    goes_on s c (finishing key event none) (held_of_refreshing (s.at c) key event here) h
Step-IsSingle {s} (finishes c key event outcome here) h = finished s c key event outcome here h
Step-IsSingle {s} (feeds lease result) h =
    same_holders s (record s { directory = feedback lease result s.directory })
      (feedback-refresh_events lease result s.directory) refl (λ i. refl) h
Step-IsSingle {s} invalidates h =
    same_holders s (record s { directory = invalidate_clearance s.directory }) refl refl (λ i. refl)
      h

-- What a directory becomes with no load, from a moment at which no refresh is under way.
pub data Loadless (d : ProxyDirectory) : Flight → Type 0 where
  starts : Loadless d (start d)
  goes : {s s' : Flight} → Loadless d s → Step s s' → Loadless d s'

reached-IsSingle : (d : ProxyDirectory) (s : Flight) → Loadless d s → IsSingle s
unfolding start held
reached-IsSingle d s starts = record {
  recorded = λ c key event e. cc;
  numbered = λ c key event e. cc;
  alone = λ c i key j event e k. cc;
}
reached-IsSingle d s (goes {s = before} r step) = Step-IsSingle step (reached-IsSingle d before r)

-- As long as no configuration is loaded, two coroutines that are at a refresh of the same key are one.
pub single_flight :
    (d : ProxyDirectory) (s : Flight) (c i : ℕ) (key : BundleKey) (event e : ℕ)
    → Loadless d s
    → Holds s.at c key event
    → Holds s.at i key e
    → c ≡ i
single_flight d s c i key event e r mine its =
    let h = reached-IsSingle d s r in
    let both : some event ≡ some e = sym (h.recorded c key event mine) ∙ h.recorded i key e its in
    let equal : event ≡ e = cc in h.alone c i key key e (mine ∙ rw equal refl) its
