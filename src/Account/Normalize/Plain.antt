-- ===== src/Account/Normalize/Plain.antt =====
-- What a validated token is made of, and when validating it again leaves it (app/control/account/models.py).
use Prim.Native.Char.{Char}
use grok2apinew.Prelude.{
  ℕ, ◌≡◌, refl, String, Bool, true, ◌&&◌, not, Option, none, some, List, [], ◌∷◌, arith,
}
use grok2apinew.Prelude.IntSet.{mem}
use grok2apinew.Account.Normalize.{
  is_space, is_ascii, filter_chars, translate, after_prefix, sso_prefix, without_sso, nonempty_text,
  normalize_token,
}

-- Every character passes a test.
unfoldable pub all_chars : (Char → Bool) → String → Bool
all_chars p String.[] = true
all_chars p (String.◌∷◌ c s) = p c && all_chars p s

-- An ASCII character that is no white space.
unfoldable pub is_plain : Char → Bool
unfolding is_space is_ascii
is_plain c = is_ascii c && not (is_space c)

all_chars-filter_chars : (p : Char → Bool) (s : String) → all_chars p (filter_chars p s) ≡ true
unfolding all_chars filter_chars
all_chars-filter_chars p String.[] = refl
all_chars-filter_chars p (String.◌∷◌ c s) = ground (arith, all_chars-filter_chars p s)

all_chars-filter_chars_and :
    (p q : Char → Bool) (s : String)
    → all_chars p s ≡ true
    → all_chars (λ c. q c && p c) (filter_chars q s) ≡ true
unfolding all_chars filter_chars
all_chars-filter_chars_and p q String.[] h = refl
all_chars-filter_chars_and p q (String.◌∷◌ c s) h = ground (arith, all_chars-filter_chars_and p q s)

all_chars-after_prefix :
    (p : Char → Bool) (ps : List ℕ) (s rest : String)
    → after_prefix ps s ≡ some rest
    → all_chars p s ≡ true
    → all_chars p rest ≡ true
unfolding all_chars after_prefix
all_chars-after_prefix p [] s rest e h = let same : s ≡ rest = cc in rw (← same) h
all_chars-after_prefix p (x ∷ ps) String.[] rest e h = cc
all_chars-after_prefix p (x ∷ ps) (String.◌∷◌ c s) rest e h =
    ground (arith, all_chars-after_prefix p ps s rest)

or_rest :
    (p : Char → Bool) (s : String) (o : Option String)
    → after_prefix sso_prefix s ≡ o
    → all_chars p s ≡ true
    → all_chars p (elim o [ none ↦ s | some rest ↦ rest ]) ≡ true
or_rest p s none e h = h
or_rest p s (some rest) e h = all_chars-after_prefix p sso_prefix s rest e h

without_sso-keeps :
    (p : Char → Bool) (s : String) → all_chars p s ≡ true → all_chars p (without_sso s) ≡ true
unfolding without_sso
without_sso-keeps p s h = or_rest p s (after_prefix sso_prefix s) refl h

filter_chars-all_chars :
    (p q : Char → Bool) (s : String)
    → ((c : Char) → p c ≡ true → q c ≡ true)
    → all_chars p s ≡ true
    → filter_chars q s ≡ s
unfolding all_chars filter_chars
filter_chars-all_chars p q String.[] sub h = refl
filter_chars-all_chars p q (String.◌∷◌ c s) sub h =
    ground (arith, sub c, filter_chars-all_chars p q s sub)

translate-plain : (s : String) → all_chars is_plain s ≡ true → translate s ≡ s
unfolding all_chars translate is_plain mem
translate-plain String.[] h = refl
translate-plain (String.◌∷◌ c s) h = ground (arith, translate-plain s)

nonempty_text-eq : (s t : String) → nonempty_text s ≡ some t → s ≡ t
unfolding nonempty_text
nonempty_text-eq String.[] t e = cc
nonempty_text-eq (String.◌∷◌ c s) t e = cc

nonempty_text-some : (s t : String) → nonempty_text s ≡ some t → nonempty_text t ≡ some t
nonempty_text-some s t e = rw (nonempty_text-eq s t e) at e

-- A validated token has only ASCII characters, none of them white space.
pub normalize_token-is_plain :
    (v t : String) → normalize_token v ≡ some t → all_chars is_plain t ≡ true
unfolding normalize_token is_plain
normalize_token-is_plain v t e =
    let joined = filter_chars (λ c. not (is_space c)) (translate v) in
    let spaceless =
      without_sso-keeps _ joined (all_chars-filter_chars (λ c. not (is_space c)) (translate v)) in
    rw (← nonempty_text-eq _ t e)
      (all_chars-filter_chars_and (λ c. not (is_space c)) is_ascii (without_sso joined) spaceless)

plain_is_ascii : (c : Char) → is_plain c ≡ true → is_ascii c ≡ true
unfolding is_plain
plain_is_ascii c h = ground arith

plain_not_space : (c : Char) → is_plain c ≡ true → not (is_space c) ≡ true
unfolding is_plain
plain_not_space c h = ground arith

without_sso-none : (t : String) → after_prefix sso_prefix t ≡ none → without_sso t ≡ t
unfolding without_sso
without_sso-none t h = rw h refl

-- A validated token is left by another validation, unless it begins with the prefix "sso=" itself.
pub normalize_token-normalize_token :
    (v t : String)
    → normalize_token v ≡ some t
    → after_prefix sso_prefix t ≡ none
    → normalize_token t ≡ some t
unfolding normalize_token
normalize_token-normalize_token v t e h =
    let plain = normalize_token-is_plain v t e in
    let once = filter_chars-all_chars is_plain (λ c. not (is_space c)) t plain_not_space plain in
    rw
      (
        translate-plain t plain,
        once,
        without_sso-none t h,
        filter_chars-all_chars is_plain is_ascii t plain_is_ascii plain,
      )
      (nonempty_text-some _ t e)
