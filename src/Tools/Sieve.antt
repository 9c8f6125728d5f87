-- ===== src/Tools/Sieve.antt =====
-- app/products/openai/_tool_sieve.py: the ToolSieve. A text is the list of its code points. `parse` stands for
-- parse_tool_calls with the names of the request's tools.
pub mod Conserved
use grok2apinew.Prelude.{
  ℕ, zero, suc, ◌+◌, ◌-◌, Bool, true, false, ◌&&◌, ◌||◌, not, Option, none, some, List, [], ◌∷◌,
  ◌++◌, leb, ltb, ◌==◌, length, if◌then◌else◌,
}
use grok2apinew.Prelude.IntSet.{mem}
use grok2apinew.Account.Normalize.{white_space, same_codes}

abbrev pub Text : Type 0
Text = List ℕ

-- What parse_tool_calls returns, for any type of calls.
pub record ParseResult (Call : Type 0) : Type 0 where
  pub calls : List Call
  pub saw_tool_syntax : Bool

-- re.IGNORECASE, on the letters of the tag: the capital letters, and the long s.
unfoldable pub fold_case : ℕ → ℕ
fold_case c = if leb b'A' c && leb c b'Z' then c + 32 else if c == 383 then b's' else c

abbrev pub open_tag : Text
open_tag = b'<' ∷ b't' ∷ b'o' ∷ b'o' ∷ b'l' ∷ b'_' ∷ b'c' ∷ b'a' ∷ b'l' ∷ b'l' ∷ b's' ∷ []

-- The tag without its ">".
abbrev pub close_tag : Text
close_tag = b'<' ∷ b'/' ∷ b't' ∷ b'o' ∷ b'o' ∷ b'l' ∷ b'_' ∷ b'c' ∷ b'a' ∷ b'l' ∷ b'l' ∷ b's' ∷ []

-- A match at the head of the text: what is matched, and what follows.
unfoldable pub match_text : Text → Text → Option (Text × Text)
unfolding fold_case
match_text [] text = some ([], text)
match_text (p ∷ ps) [] = none
match_text (p ∷ ps) (c ∷ text) =
    let rest = match_text ps text in
    if fold_case c == p
    then elim rest [ none ↦ none | some (m, after) ↦ some (c ∷ m, after) ]
    else none

-- \s*>
unfoldable pub match_end : Text → Option (Text × Text)
unfolding mem
match_end [] = none
match_end (c ∷ text) =
    let rest = match_end text in
    if c == b'>'
    then some (c ∷ [], text)
    else if mem c white_space
    then elim rest [ none ↦ none | some (m, after) ↦ some (c ∷ m, after) ]
    else none

unfoldable pub match_close : Text → Option (Text × Text)
unfolding match_text match_end
match_close text = elim (match_text close_tag text) [
  | none ↦ none
  | some (m, rest) ↦ elim (match_end rest) [ none ↦ none | some (e, after) ↦ some (m ++ e, after) ]
]

abbrev pub opens_here : Text → Bool
opens_here text = elim (match_text open_tag text) [ none ↦ false | some found ↦ true ]

-- _OPEN_TAG_RE.search: the text before the first tag, and from it on. What may follow the tag in the
-- pattern is optional, so that it does not matter here.
unfoldable pub search_open : Text → Option (Text × Text)
unfolding match_text
search_open [] = none
search_open (c ∷ text) =
    let rest = search_open text in
    if opens_here (c ∷ text)
    then some ([], c ∷ text)
    else elim rest [ none ↦ none | some (before, tag) ↦ some (c ∷ before, tag) ]

-- _CLOSE_TAG_RE.search: the text to the end of the first tag, and after it.
unfoldable pub search_close : Text → Option (Text × Text)
unfolding match_close
search_close [] = none
search_close (c ∷ text) =
    let rest = search_close text in
    elim (match_close (c ∷ text)) [
      | some found ↦ some found
      | none ↦ elim rest [ none ↦ none | some (block, after) ↦ some (c ∷ block, after) ]
    ]

unfoldable pub take : ℕ → Text → Text
take zero text = []
take (suc n) [] = []
take (suc n) (c ∷ text) = c ∷ take n text

unfoldable pub drop : ℕ → Text → Text
drop zero text = text
drop (suc n) [] = []
drop (suc n) (c ∷ text) = drop n text

-- The loop of _split_at_boundary, from i down to 1.
unfoldable pub split_from : ℕ → Text → Text → Text × Text
unfolding take drop
split_from zero text tag = (text, [])
split_from (suc i) text tag =
    let n = length text - suc i in
    let rest = split_from i text tag in
    if same_codes (drop n text) (take (suc i) tag) then (take n text, drop n text) else rest

-- _split_at_boundary
unfoldable pub split_at_boundary : Text → Text → Text × Text
unfolding split_from
split_at_boundary text tag =
    let whole = length tag - 1 in
    split_from (if ltb (length text) whole then length text else whole) text tag

-- The fields _buf, _capturing and _done.
pub record ToolSieve : Type 0 where
  pub buf : Text
  pub capturing : Bool
  pub done : Bool

-- ToolSieve(...)
abbrev pub new_sieve : ToolSieve
new_sieve = record { buf = []; capturing = false; done = false }

module _ {Call : Type 0} (parse : Text → ParseResult Call) where
  -- result.calls if result.saw_tool_syntax else None
  abbrev pub seen_calls : ParseResult Call → Option (List Call)
  seen_calls result = if result.saw_tool_syntax then some result.calls else none

  abbrev pub captured :
      Option (Text × Text) → Text → ToolSieve → ToolSieve × Text × Option (List Call)
  captured none text s = (record s { buf = text }, [], none)
  captured (some (block, after)) text s =
      (record { buf = []; capturing = false; done = true }, [], seen_calls (parse block))

  -- _feed_capturing
  unfoldable pub feed_capturing : ToolSieve → Text → ToolSieve × Text × Option (List Call)
  unfolding search_close
  feed_capturing s chunk = let text = s.buf ++ chunk in captured (search_close text) text s

  abbrev pub scanned :
      Option (Text × Text) → Text → ToolSieve → ToolSieve × Text × Option (List Call)
  scanned none text s =
      let (safe, leftover) = split_at_boundary text open_tag in
      (record s { buf = leftover }, safe, none)
  scanned (some (before, tag)) text s =
      let (s', safe, calls) = feed_capturing (record s { buf = tag; capturing = true }) [] in
      (s', before ++ safe, calls)

  -- _feed_scanning
  unfoldable pub feed_scanning : ToolSieve → Text → ToolSieve × Text × Option (List Call)
  unfolding search_open split_at_boundary feed_capturing
  feed_scanning s chunk = let text = s.buf ++ chunk in scanned (search_open text) text s

  abbrev is_empty : Text → Bool
  is_empty [] = true
  is_empty (c ∷ text) = false

  unfoldable pub feed : ToolSieve → Text → ToolSieve × Text × Option (List Call)
  unfolding feed_capturing feed_scanning
  feed s chunk =
      if s.done || is_empty chunk
      then (s, (if s.capturing then [] else chunk), none)
      else if s.capturing
      then feed_capturing s chunk
      else feed_scanning s chunk

  unfoldable pub flush : ToolSieve → ToolSieve × Option (List Call)
  flush s =
      if s.done || is_empty s.buf
      then (s, none)
      else (record s { buf = []; done = true }, seen_calls (parse s.buf))

  -- The texts that the chunks of a stream give, one after the other.
  unfoldable pub feed_all : ToolSieve → List Text → ToolSieve × Text
  unfolding feed
  feed_all s [] = (s, [])
  feed_all s (chunk ∷ chunks) =
      let (s', safe, calls) = feed s chunk in
      let (s'', rest) = feed_all s' chunks in (s'', safe ++ rest)
