-- ===== src/Account/Normalize.antt =====
-- app/control/account/models.py: the validators of AccountRecord, for the token, the pool and the tags. A
-- text is the native one; `none` stands for the ValueError that a validator raises. Of str.lower only the
-- letters A to Z matter, since no other character becomes one that stands in a pool's name.
pub mod Plain
use Prim.Native.Char.{Char, char, code}
use Prim.Native.String
use grok2apinew.Prelude.{
  ℕ, ◌+◌, String, Bool, true, false, ◌&&◌, ◌||◌, not, Option, none, some, List, [], ◌∷◌, ◌++◌, ltb,
  leb, ◌==◌, if◌then◌else◌,
}
use text.Mathlib.Text.{◌==◌ as str_eq}
use grok2apinew.Prelude.IntSet.{mem}

-- The code points that Python calls white space.
abbrev pub white_space : List ℕ
white_space =
    9 ∷ 10 ∷ 11 ∷ 12 ∷ 13 ∷ 28 ∷ 29 ∷ 30 ∷ 31 ∷ 32 ∷ 133 ∷ 160 ∷ 5_760 ∷ 8_192 ∷ 8_193 ∷ 8_194
    ∷ 8_195 ∷ 8_196 ∷ 8_197 ∷ 8_198 ∷ 8_199 ∷ 8_200 ∷ 8_201 ∷ 8_202 ∷ 8_232 ∷ 8_233 ∷ 8_239 ∷ 8_287
    ∷ 12_288 ∷ []

abbrev dashes : List ℕ
dashes = 8_208 ∷ 8_209 ∷ 8_210 ∷ 8_211 ∷ 8_212 ∷ 8_722 ∷ []

abbrev spaces : List ℕ
spaces = 160 ∷ 8_199 ∷ 8_239 ∷ []

abbrev zero_width : List ℕ
zero_width = 8_203 ∷ 8_204 ∷ 8_205 ∷ 65_279 ∷ []

unfoldable pub is_space : Char → Bool
unfolding mem
is_space c = mem (code c) white_space

unfoldable pub is_ascii : Char → Bool
is_ascii c = ltb (code c) 128

-- The characters that pass a test, in order.
unfoldable pub filter_chars : (Char → Bool) → String → String
filter_chars keep String.[] = String.[]
filter_chars keep (String.◌∷◌ c s) =
    let rest = filter_chars keep s in if keep c then String.◌∷◌ c rest else rest

-- token.translate(...): dashes and spaces become the plain ones, characters of no width are dropped
unfoldable pub translate : String → String
unfolding mem
translate String.[] = String.[]
translate (String.◌∷◌ c s) =
    let rest = translate s in
    if mem (code c) dashes
    then String.◌∷◌ (char 45 tt) rest
    else if mem (code c) spaces
    then String.◌∷◌ (char 32 tt) rest
    else if mem (code c) zero_width
    then rest
    else String.◌∷◌ c rest

-- What follows the characters with these code points, if the text starts with them.
unfoldable pub after_prefix : List ℕ → String → Option String
after_prefix [] s = some s
after_prefix (p ∷ ps) String.[] = none
after_prefix (p ∷ ps) (String.◌∷◌ c s) =
    let rest = after_prefix ps s in if code c == p then rest else none

abbrev pub sso_prefix : List ℕ
sso_prefix = b's' ∷ b's' ∷ b'o' ∷ b'=' ∷ []

-- token[4:] if token.startswith("sso=") else token
unfoldable pub without_sso : String → String
unfolding after_prefix
without_sso s = elim (after_prefix sso_prefix s) [ none ↦ s | some rest ↦ rest ]

unfoldable pub nonempty_text : String → Option String
nonempty_text String.[] = none
nonempty_text (String.◌∷◌ c s) = some (String.◌∷◌ c s)

-- _normalize_token
unfoldable pub normalize_token : String → Option String
unfolding translate filter_chars is_space without_sso is_ascii nonempty_text
normalize_token v =
    let joined = filter_chars (λ c. not (is_space c)) (translate v) in
    nonempty_text (filter_chars is_ascii (without_sso joined))

-- s.lstrip()
unfoldable pub lstrip : String → String
unfolding is_space
lstrip String.[] = String.[]
lstrip (String.◌∷◌ c s) = let rest = lstrip s in if is_space c then rest else String.◌∷◌ c s

-- s.rstrip()
unfoldable pub rstrip : String → String
unfolding is_space
rstrip String.[] = String.[]
rstrip (String.◌∷◌ c s) = elim (rstrip s) [
  | String.[] ↦ if is_space c then String.[] else String.◌∷◌ c String.[]
  | String.◌∷◌ d rest ↦ String.◌∷◌ c (String.◌∷◌ d rest)
]

-- The code points of s.lower()
unfoldable pub lower : String → List ℕ
lower String.[] = []
lower (String.◌∷◌ c s) =
    (if leb b'A' (code c) && leb (code c) b'Z' then code c + 32 else code c) ∷ lower s

abbrev starts : List ℕ → List ℕ → Bool
starts [] text = true
starts (p ∷ ps) [] = false
starts (p ∷ ps) (c ∷ text) = p == c && starts ps text

-- part in text
unfoldable pub is_part : List ℕ → List ℕ → Bool
is_part part [] = starts part []
is_part part (c ∷ text) = starts part (c ∷ text) || is_part part text

-- The text of two codes is the same.
abbrev pub same_codes : List ℕ → List ℕ → Bool
same_codes [] [] = true
same_codes [] (d ∷ b) = false
same_codes (c ∷ a) [] = false
same_codes (c ∷ a) (d ∷ b) = c == d && same_codes a b

abbrev pub codes : String → List ℕ
codes String.[] = []
codes (String.◌∷◌ c s) = code c ∷ codes s

-- _normalize_pool: ("super") is no tuple, so the first test asks for a part of the name
unfoldable pub normalize_pool : String → Option String
unfolding lower lstrip rstrip is_part
normalize_pool v =
    let val = lower (rstrip (lstrip v)) in
    if is_part val (codes "super")
    then some "super"
    else if same_codes val (codes "heavy")
    then some "heavy"
    else if same_codes val (codes "ssobasic")
        || same_codes val (codes "basic")
        || same_codes val []
        || same_codes val (codes "auto")
    then some "basic"
    else none

-- tag in seen
unfoldable pub has_text : String → List String → Bool
has_text s [] = false
has_text s (x ∷ xs) = str_eq x s || has_text s xs

abbrev seen_tags : List String → List String → List String
seen_tags seen [] = seen
seen_tags seen (v ∷ vs) =
    let tag = rstrip (lstrip v) in
    seen_tags (if not (str_eq tag "") && not (has_text tag seen) then seen ++ tag ∷ [] else seen) vs

-- _normalize_tags, of a list
unfoldable pub normalize_tags : List String → List String
unfolding lstrip rstrip has_text
normalize_tags vs = seen_tags [] vs
