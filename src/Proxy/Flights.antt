-- ===== src/Proxy/Flights.antt =====
-- app/control/proxy/__init__.py, _get_or_build_bundle: the coroutines that ask for a bundle. A step is what
-- runs between two points at which another coroutine may run: a section under the lock, the wait for an
-- event, the answer of a provider. An event is its number, and `fired` says whether it was set.
pub mod Wakes
pub mod Waits
pub mod Single
use grok2apinew.Prelude.{
  ℕ, suc, ◌≡◌, String, Bool, true, false, ◌||◌, Option, none, some, List, [], ◌∷◌, ◌==◌,
  if◌then◌else◌,
}
use grok2apinew.Proxy.{
  ClearanceMode, no_clearance, ClearanceBundleState, valid, ClearanceBundle, ProxyLease,
  ProxyFeedback,
}
use grok2apinew.Proxy.Bundles.{BundleKey, KeyMap, lookup, insert, erase}
use grok2apinew.Proxy.Directory.{ProxyConfig, ProxyDirectory, invalidate_clearance, feedback}
use grok2apinew.Proxy.Load.{load}

-- Where a coroutine stands: before its loop, in the wait of the loop, after winning the refresh, before the
-- finally block (with what it will return, or `none` where an exception is on its way), at its end.
pub data Local : Type 0 where
  idle raised : Local
  entering : BundleKey → Local
  waiting refreshing : BundleKey → ℕ → Local
  finishing : BundleKey → ℕ → Option (Option ClearanceBundle) → Local
  returned : Option ClearanceBundle → Local

pub record Flight : Type 0 where
  pub directory : ProxyDirectory
  pub fired : ℕ → Bool
  pub next_event : ℕ
  pub at : ℕ → Local

-- The coroutine c goes on to v.
abbrev pub goto : ℕ → Local → (ℕ → Local) → ℕ → Local
goto c v at i = if c == i then v else at i

unfoldable pub is_valid : ClearanceBundleState → Bool
is_valid valid = true
is_valid _ = false

abbrev pub if_valid : Option ClearanceBundle → Option ClearanceBundle
if_valid none = none
if_valid (some bundle) = if is_valid bundle.state then some bundle else none

-- The bundle of the key, if it is valid.
unfoldable pub valid_bundle : BundleKey → ProxyDirectory → Option ClearanceBundle
unfolding lookup is_valid
valid_bundle key d = if_valid (lookup key d.bundles)

abbrev pub join_or_win : Option ℕ → BundleKey → ℕ → Flight → Flight
join_or_win (some event) key c s = record s { at = goto c (waiting key event) s.at }
join_or_win none key c s = record s {
  directory = record s.directory {
    refresh_events = insert key s.next_event s.directory.refresh_events;
  };
  next_event = suc s.next_event;
  at = goto c (refreshing key s.next_event) s.at;
}

abbrev pub return_or_join : Option ClearanceBundle → BundleKey → ℕ → Flight → Flight
return_or_join (some bundle) key c s = record s { at = goto c (returned (some bundle)) s.at }
return_or_join none key c s = join_or_win (lookup key s.directory.refresh_events) key c s

-- The section under the lock at the head of the loop.
unfoldable pub enter : BundleKey → ℕ → Flight → Flight
unfolding valid_bundle lookup insert
enter key c s = return_or_join (valid_bundle key s.directory) key c s

abbrev pub stored : Option ClearanceBundle → BundleKey → ProxyDirectory → ProxyDirectory
stored none key d = d
stored (some bundle) key d = record d { bundles = insert key bundle d.bundles }

-- The answer of the provider, which is stored if it is a bundle.
unfoldable pub answer : Option ClearanceBundle → BundleKey → ℕ → ℕ → Flight → Flight
unfolding insert
answer found key event c s = record s {
  directory = stored found key s.directory;
  at = goto c (finishing key event (some found)) s.at;
}

abbrev pub ending : Option (Option ClearanceBundle) → Local
ending none = raised
ending (some found) = returned found

-- The finally block.
unfoldable pub finish : Option (Option ClearanceBundle) → BundleKey → ℕ → ℕ → Flight → Flight
unfolding erase
finish outcome key event c s = record s {
  directory = record s.directory { refresh_events = erase key s.directory.refresh_events };
  fired = λ e. event == e || s.fired e;
  at = goto c (ending outcome) s.at;
}

-- The head of _get_or_build_bundle.
abbrev pub begin : ClearanceMode → BundleKey → Local
begin no_clearance key = returned none
begin _ key = entering key

-- One step of one coroutine, or of a method that keeps the events.
pub data Step : Flight → Flight → Type 0 where
  calls :
      {s : Flight} (c : ℕ) (key : BundleKey)
      → s.at c ≡ idle
      → Step s (record s { at = goto c (begin s.directory.clearance_mode key) s.at })
  enters : {s : Flight} (c : ℕ) (key : BundleKey) → s.at c ≡ entering key → Step s (enter key c s)
  wakes :
      {s : Flight} (c : ℕ) (key : BundleKey) (event : ℕ)
      → s.at c ≡ waiting key event
      → s.fired event ≡ true
      → Step s (record s { at = goto c (entering key) s.at })
  answers :
      {s : Flight} (c : ℕ) (key : BundleKey) (event : ℕ) (found : Option ClearanceBundle)
      → s.at c ≡ refreshing key event
      → Step s (answer found key event c s)
  raises :
      {s : Flight} (c : ℕ) (key : BundleKey) (event : ℕ)
      → s.at c ≡ refreshing key event
      → Step s (record s { at = goto c (finishing key event none) s.at })
  finishes :
      {s : Flight} (c : ℕ) (key : BundleKey) (event : ℕ) (outcome : Option (Option ClearanceBundle))
      → s.at c ≡ finishing key event outcome
      → Step s (finish outcome key event c s)
  feeds :
      {s : Flight} (lease : ProxyLease) (result : ProxyFeedback)
      → Step s (record s { directory = feedback lease result s.directory })
  invalidates : {s : Flight} → Step s (record s { directory = invalidate_clearance s.directory })

-- A step, or a load of any configuration.
pub data AnyStep (text_of_int : ℕ → String) : Flight → Flight → Type 0 where
  steps : {s s' : Flight} → Step s s' → AnyStep text_of_int s s'
  loads :
      {s : Flight} (cfg : ProxyConfig)
      → AnyStep text_of_int s (record s { directory = load text_of_int cfg s.directory })

-- No coroutine has called, and no refresh is under way.
unfoldable pub start : ProxyDirectory → Flight
start d = record {
  directory = record d { refresh_events = [] };
  fired = λ e. false;
  next_event = 0;
  at = λ c. idle;
}
