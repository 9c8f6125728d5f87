-- ===== src/Tests/SieveRuns.antt =====
-- The theorems on the tool sieve at a short stream.
use grok2apinew.Prelude.{ℕ, ◌≤◌, ◌≡◌, refl, true, false, List, [], ◌∷◌, ◌++◌, arith, length}
use grok2apinew.Tools.Sieve.{Text, ParseResult, new_sieve, feed, feed_all}
use grok2apinew.Tools.Sieve.Conserved.{join, feed_all-join, feed-length_buf}

-- A parser that finds one call in every block.
abbrev one_call : Text → ParseResult ℕ
one_call text = record { calls = 1 ∷ []; saw_tool_syntax = true }

-- "a<t" and "x"
abbrev stream : List Text
stream = (b'a' ∷ b'<' ∷ b't' ∷ []) ∷ (b'x' ∷ []) ∷ []

not_done : (feed_all one_call new_sieve stream).0.done ≡ false
unfolding grok2apinew.Tools.Sieve.fold_case grok2apinew.Tools.Sieve.match_text
    grok2apinew.Tools.Sieve.match_end grok2apinew.Tools.Sieve.match_close
    grok2apinew.Tools.Sieve.search_open grok2apinew.Tools.Sieve.search_close
    grok2apinew.Tools.Sieve.take grok2apinew.Tools.Sieve.drop grok2apinew.Tools.Sieve.split_from
    grok2apinew.Tools.Sieve.split_at_boundary grok2apinew.Tools.Sieve.feed_capturing
    grok2apinew.Tools.Sieve.feed_scanning grok2apinew.Tools.Sieve.feed
    grok2apinew.Tools.Sieve.feed_all grok2apinew.Prelude.IntSet.mem
not_done = refl

feed_all-join_example :
    (feed_all one_call new_sieve stream).1 ++ (feed_all one_call new_sieve stream).0.buf
    ≡ join stream
feed_all-join_example = feed_all-join one_call stream new_sieve refl not_done

not_capturing : (feed one_call new_sieve (b'a' ∷ b'<' ∷ [])).0.capturing ≡ false
unfolding grok2apinew.Tools.Sieve.fold_case grok2apinew.Tools.Sieve.match_text
    grok2apinew.Tools.Sieve.match_end grok2apinew.Tools.Sieve.match_close
    grok2apinew.Tools.Sieve.search_open grok2apinew.Tools.Sieve.search_close
    grok2apinew.Tools.Sieve.take grok2apinew.Tools.Sieve.drop grok2apinew.Tools.Sieve.split_from
    grok2apinew.Tools.Sieve.split_at_boundary grok2apinew.Tools.Sieve.feed_capturing
    grok2apinew.Tools.Sieve.feed_scanning grok2apinew.Tools.Sieve.feed
    grok2apinew.Tools.Sieve.feed_all grok2apinew.Prelude.IntSet.mem
not_capturing = refl

feed-length_buf_example : length (feed one_call new_sieve (b'a' ∷ b'<' ∷ [])).0.buf ≤ 10
feed-length_buf_example =
    feed-length_buf one_call new_sieve (b'a' ∷ b'<' ∷ []) (λ off. omega arith) not_capturing
