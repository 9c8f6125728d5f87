-- ===== src/Tools/Sieve/Conserved.antt =====
-- What a sieve forwards and what it keeps back (app/products/openai/_tool_sieve.py).
use mathlib.Core.List.{append_assoc, append-nil}
use grok2apinew.Prelude.{
  ℕ, zero, suc, ◌+◌, ◌-◌, ◌≤◌, ◌≡◌, refl, sym, ap, ◌∙◌, Bool, true, false, ◌||◌, Option, none, some,
  List, [], ◌∷◌, ◌++◌, arith, ltb, length, if◌then◌else◌, Bool-cases, inl, inr,
}
use grok2apinew.Account.Normalize.{same_codes}
use grok2apinew.Tools.Sieve.{
  Text, ParseResult, open_tag, opens_here, search_open, search_close, take, drop, split_from,
  split_at_boundary, ToolSieve, captured, feed_capturing, scanned, feed_scanning, feed, feed_all,
}

take-drop : (n : ℕ) (text : Text) → take n text ++ drop n text ≡ text
unfolding take drop
take-drop zero text = refl
take-drop (suc n) [] = refl
take-drop (suc n) (c ∷ text) = ap (λ rest. c ∷ rest) (take-drop n text)

length-drop : (n : ℕ) (text : Text) → length (drop n text) + n ≤ length text + (n - length text)
unfolding drop
length-drop zero text = omega arith
length-drop (suc n) [] = omega arith
length-drop (suc n) (c ∷ text) = omega (arith, length-drop n text)

either_split :
    (b : Bool) (text : Text) (p q : Text × Text)
    → p.0 ++ p.1 ≡ text
    → q.0 ++ q.1 ≡ text
    → (if b then p else q).0 ++ (if b then p else q).1 ≡ text
either_split true text p q e k = e
either_split false text p q e k = k

split_from-append :
    (i : ℕ) (text tag : Text) → (split_from i text tag).0 ++ (split_from i text tag).1 ≡ text
unfolding split_from
split_from-append zero text tag = append-nil text
split_from-append (suc i) text tag =
    let n = length text - suc i in
    either_split (same_codes (drop n text) (take (suc i) tag)) text (take n text, drop n text)
      (split_from i text tag) (take-drop n text) (split_from-append i text tag)

either_le :
    (b : Bool) (n : ℕ) (p q : Text × Text)
    → length p.1 ≤ n
    → length q.1 ≤ n
    → length (if b then p else q).1 ≤ n
either_le true n p q e k = e
either_le false n p q e k = k

split_from-length :
    (i : ℕ) (text tag : Text) → i ≤ length text → length (split_from i text tag).1 ≤ i
unfolding split_from
split_from-length zero text tag le = omega arith
split_from-length (suc i) text tag le =
    let n = length text - suc i in
    let dropped = length-drop n text in
    let rest = split_from-length i text tag (omega arith) in
    either_le (same_codes (drop n text) (take (suc i) tag)) (suc i) (take n text, drop n text)
      (split_from i text tag) (omega arith) (omega arith)

split_at_boundary-append :
    (text tag : Text) → (split_at_boundary text tag).0 ++ (split_at_boundary text tag).1 ≡ text
unfolding split_at_boundary
split_at_boundary-append text tag = split_from-append _ text tag

either_bound : (n m : ℕ) → (if ltb n m then n else m) ≤ n
either_bound n m = ground arith

either_bound_whole : (n m : ℕ) → (if ltb n m then n else m) ≤ m
either_bound_whole n m = ground arith

split_at_boundary-length : (text : Text) → length (split_at_boundary text open_tag).1 ≤ 10
unfolding split_at_boundary
split_at_boundary-length text =
    let short =
      split_from-length (if ltb (length text) 10 then length text else 10) text open_tag
        (either_bound (length text) 10) in
    let whole = either_bound_whole (length text) 10 in omega arith

pair_eqs :
    (a b x y : Text)
    → ◌≡◌ {A = Option (Text × Text)} (some (a, b)) (some (x, y))
    → (a ≡ x) × (b ≡ y)
pair_eqs a b x y e = (cc, cc)

opened :
    (here : Bool) (rest : Option (Text × Text)) (c : ℕ) (text before tag : Text)
    → ((b t : Text) → rest ≡ some (b, t) → b ++ t ≡ text)
    → if◌then◌else◌ {A = Option (Text × Text)} here
        (some ([], c ∷ text))
        (elim rest [ none ↦ none | some (b, t) ↦ some (c ∷ b, t) ])
      ≡ some (before, tag)
    → before ++ tag ≡ c ∷ text
opened true rest c text before tag more e =
    let (b, t) = pair_eqs [] (c ∷ text) before tag e in rw (← b, ← t) refl
opened false none c text before tag more e = cc
opened false (some (b₀, t₀)) c text before tag more e =
    let (b, t) = pair_eqs (c ∷ b₀) t₀ before tag e in
    rw (← b, ← t) (ap (λ rest. c ∷ rest) (more b₀ t₀ refl))

search_open-append :
    (text : Text) (before tag : Text) → search_open text ≡ some (before, tag) → before ++ tag ≡ text
unfolding search_open
search_open-append [] before tag e = cc
search_open-append (c ∷ text) before tag e =
    opened (opens_here (c ∷ text)) (search_open text) c text before tag (search_open-append text) e

-- The whole text of a stream.
abbrev pub join : List Text → Text
join [] = []
join (chunk ∷ chunks) = chunk ++ join chunks

module _ {Call : Type 0} (parse : Text → ParseResult Call) where
  -- A result of feed keeps a text: what it forwards and what it keeps back, unless a block was complete.
  abbrev Keeps : ToolSieve × Text × Option (List Call) → Text → Type 0
  Keeps r text = r.0.done ≡ false → r.1 ++ r.0.buf ≡ text

  captured-Keeps :
      (o : Option (Text × Text)) (text : Text) (s : ToolSieve)
      → Keeps (captured parse o text s) text
  captured-Keeps none text s not_done = refl
  captured-Keeps (some found) text s not_done = cc

  feed_capturing-Keeps :
      (s : ToolSieve) (chunk : Text) → Keeps (feed_capturing parse s chunk) (s.buf ++ chunk)
  unfolding feed_capturing
  feed_capturing-Keeps s chunk = captured-Keeps (search_close (s.buf ++ chunk)) (s.buf ++ chunk) s

  scanned-Keeps :
      (o : Option (Text × Text)) (text : Text) (s : ToolSieve)
      → search_open text ≡ o
      → Keeps (scanned parse o text s) text
  scanned-Keeps none text s e not_done = split_at_boundary-append text open_tag
  scanned-Keeps (some (before, tag)) text s e not_done =
      let r = feed_capturing parse (record s { buf = tag; capturing = true }) [] in
      let kept : r.1 ++ r.0.buf ≡ tag =
        feed_capturing-Keeps (record s { buf = tag; capturing = true }) [] not_done
        ∙ append-nil tag in
      append_assoc before r.1 r.0.buf
      ∙ ap (λ rest. before ++ rest) kept
      ∙ search_open-append text before tag e

  feed_scanning-Keeps :
      (s : ToolSieve) (chunk : Text) → Keeps (feed_scanning parse s chunk) (s.buf ++ chunk)
  unfolding feed_scanning
  feed_scanning-Keeps s chunk = scanned-Keeps (search_open (s.buf ++ chunk)) (s.buf ++ chunk) s refl

  by_mode :
      (c : Bool) (s : ToolSieve) (chunk : Text)
      → Keeps
          (if c then feed_capturing parse s chunk else feed_scanning parse s chunk)
          (s.buf ++ chunk)
  by_mode true s chunk = feed_capturing-Keeps s chunk
  by_mode false s chunk = feed_scanning-Keeps s chunk

  one_feed :
      (d c : Bool) (s : ToolSieve) (chunk safe : Text)
      → d ≡ false
      → Keeps
          (if d
            then (s, safe, none)
            else if c
            then feed_capturing parse s chunk
            else feed_scanning parse s chunk)
          (s.buf ++ chunk)
  one_feed true c s chunk safe e = cc
  one_feed false c s chunk safe e = by_mode c s chunk

  no_feed :
      (d c : Bool) (s : ToolSieve) (other : ToolSieve × Text × Option (List Call))
      → d ≡ true
      → Keeps (if d then (s, (if c then [] else []), none) else other) (s.buf ++ [])
  no_feed true true s other e not_done = sym (append-nil s.buf)
  no_feed true false s other e not_done = sym (append-nil s.buf)
  no_feed false c s other e not_done = cc

  feed-Keeps :
      (s : ToolSieve) (chunk : Text) → s.done ≡ false → Keeps (feed parse s chunk) (s.buf ++ chunk)
  unfolding feed
  feed-Keeps s [] start = no_feed (s.done || true) s.capturing s _ (ap (λ x. x || true) start)
  feed-Keeps s (c ∷ chunk) start =
      one_feed (s.done || false) s.capturing s (c ∷ chunk) _ (ap (λ x. x || false) start)

  stays_done :
      (d b : Bool) (s : ToolSieve) (safe : Text) (other : ToolSieve × Text × Option (List Call))
      → d ≡ true
      → s.done ≡ true
      → (if d || b then (s, safe, none) else other).0.done ≡ true
  stays_done true b s safe other e h = h
  stays_done false b s safe other e h = cc

  feed-done : (s : ToolSieve) (chunk : Text) → s.done ≡ true → (feed parse s chunk).0.done ≡ true
  unfolding feed
  feed-done s [] h = stays_done s.done true s _ _ h h
  feed-done s (c ∷ chunk) h = stays_done s.done false s _ _ h h

  feed_all-done :
      (chunks : List Text) (s : ToolSieve) → s.done ≡ true → (feed_all parse s chunks).0.done ≡ true
  unfolding feed_all
  feed_all-done [] s h = h
  feed_all-done (chunk ∷ chunks) s h =
      feed_all-done chunks (feed parse s chunk).0 (feed-done s chunk h)

  -- As long as no block of tool calls is complete, what a sieve has forwarded, and after it what it keeps back,
  -- is what it kept back at first and then the chunks: nothing is lost, doubled or moved.
  pub feed_all-join :
      (chunks : List Text) (s : ToolSieve)
      → s.done ≡ false
      → (feed_all parse s chunks).0.done ≡ false
      → (feed_all parse s chunks).1 ++ (feed_all parse s chunks).0.buf ≡ s.buf ++ join chunks
  unfolding feed_all
  feed_all-join [] s start not_done = sym (append-nil s.buf)
  feed_all-join (chunk ∷ chunks) s start not_done =
      let r = feed parse s chunk in
      let rest = feed_all parse r.0 chunks in
      elim (Bool-cases r.0.done) [
        | inl over ↦
            let impossible : true ≡ false = sym (feed_all-done chunks r.0 over) ∙ not_done in cc
        | inr going ↦
            append_assoc r.1 rest.1 rest.0.buf
            ∙ ap (λ x. r.1 ++ x) (feed_all-join chunks r.0 going not_done)
            ∙ sym (append_assoc r.1 r.0.buf (join chunks))
            ∙ ap (λ x. x ++ join chunks) (feed-Keeps s chunk start going)
            ∙ append_assoc s.buf chunk (join chunks)
      ]

  -- A sieve that is in neither mode keeps back at most ten characters, one less than the tag has.
  IsShort : ToolSieve × Text × Option (List Call) → Type 0
  IsShort r = r.0.capturing ≡ false → length r.0.buf ≤ 10

  captured-IsShort :
      (o : Option (Text × Text)) (text : Text) (s : ToolSieve)
      → s.capturing ≡ true
      → IsShort (captured parse o text s)
  unfolding IsShort
  captured-IsShort none text s on off = let impossible : true ≡ false = sym on ∙ off in cc
  captured-IsShort (some found) text s on off = omega arith

  scanned-IsShort :
      (o : Option (Text × Text)) (text : Text) (s : ToolSieve) → IsShort (scanned parse o text s)
  unfolding IsShort feed_capturing
  scanned-IsShort none text s off = split_at_boundary-length text
  scanned-IsShort (some (before, tag)) text s off =
      captured-IsShort (search_close (tag ++ [])) (tag ++ [])
        (record s { buf = tag; capturing = true }) refl off

  by_mode-IsShort :
      (d c : Bool) (s : ToolSieve) (chunk safe : Text)
      → s.capturing ≡ c
      → (s.capturing ≡ false → length s.buf ≤ 10)
      → IsShort (
          if d
          then (s, safe, none)
          else if c
          then feed_capturing parse s chunk
          else feed_scanning parse s chunk)
  unfolding IsShort feed_capturing feed_scanning
  by_mode-IsShort true c s chunk safe e h = h
  by_mode-IsShort false true s chunk safe e h =
      captured-IsShort (search_close (s.buf ++ chunk)) (s.buf ++ chunk) s e
  by_mode-IsShort false false s chunk safe e h =
      scanned-IsShort (search_open (s.buf ++ chunk)) (s.buf ++ chunk) s

  -- Feeding a chunk, of any length, leaves at most ten characters kept back where no tag is being captured,
  -- if there were at most ten.
  pub feed-length_buf :
      (s : ToolSieve) (chunk : Text)
      → (s.capturing ≡ false → length s.buf ≤ 10)
      → (feed parse s chunk).0.capturing ≡ false
      → length (feed parse s chunk).0.buf ≤ 10
  unfolding feed IsShort
  feed-length_buf s [] h = by_mode-IsShort (s.done || true) s.capturing s [] _ refl h
  feed-length_buf s (c ∷ chunk) h =
      by_mode-IsShort (s.done || false) s.capturing s (c ∷ chunk) _ refl h
