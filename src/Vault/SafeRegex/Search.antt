-- ===== src/Vault/SafeRegex/Search.antt =====
-- src/vault/safe-regex.ts: the search for the leftmost match in a line. The two arrays of a list of
-- threads are one list of pairs: the state, and the offset where its match starts.
pub mod Threads
pub mod Cuts
pub mod Leftmost
pub mod Earliest
pub mod Finds
pub mod Lists
pub mod Followed
pub mod Bounds
pub mod First
use brainstem_mcp.Prelude.{
  List, Option, [], drop, get_elem?, if◌then◌else◌, is_empty, is_some, length, map, none, some,
  true, ℕ, ◌&&◌, ◌++◌, ◌+◌, ◌∷◌,
}
use brainstem_mcp.Vault.SafeRegex.{set_matches}
use brainstem_mcp.Vault.SafeRegex.Matcher.{add_state, is_match}
use brainstem_mcp.Vault.SafeRegex.Nfa.{Nfa, NfaState, States, char_state, match_state, split_state}

pub record SearchMatch : Type 0 where
  pub start : ℕ
  pub end : ℕ

abbrev pub ThreadList : Type 0
ThreadList = List (ℕ × ℕ)

pub record Buffer : Type 0 where
  pub seen : List ℕ
  pub threads : ThreadList

abbrev pub no_threads : Buffer
no_threads = record { seen = []; threads = [] }

abbrev pub states_of : ThreadList → List ℕ
states_of threads = map (λ p. p.0) threads

abbrev pub tagged : ℕ → List ℕ → ThreadList
tagged start list = map (λ i. (i, start)) list

unfoldable pub add_thread : States → ℕ → ℕ → Buffer → Buffer
unfolding add_state
add_thread states from start buffer =
    let v =
      add_state true states from (record { seen = buffer.seen; list = states_of buffer.threads }) in
    record {
      seen = v.seen;
      threads = buffer.threads ++ tagged start (drop (length (states_of buffer.threads)) v.list);
    }

unfoldable pub follow_thread : States → List ℕ → Option NfaState → ℕ → Buffer → Buffer
unfolding add_thread
follow_thread states variants none start buffer = buffer
follow_thread states variants (some match_state) start buffer = buffer
follow_thread states variants (some (split_state a b)) start buffer = buffer
follow_thread states variants (some (char_state chars none)) start buffer = buffer
follow_thread states variants (some (char_state chars (some next))) start buffer =
    if set_matches chars variants then add_thread states next start buffer else buffer

unfoldable pub follow_threads : States → List ℕ → ThreadList → Buffer → Buffer
unfolding follow_thread
follow_threads states variants [] buffer = buffer
follow_threads states variants ((i, start) ∷ current) buffer =
    follow_threads states variants current
      (follow_thread states variants (get_elem? states i) start buffer)

-- The start of the first thread that is in a match state.
unfoldable pub match_start : States → ThreadList → Option ℕ
match_start states [] = none
match_start states ((i, start) ∷ current) =
    if is_match (get_elem? states i) then some start else match_start states current

-- The threads before it.
unfoldable pub cut : States → ThreadList → ThreadList
cut states [] = []
cut states ((i, start) ∷ current) =
    if is_match (get_elem? states i) then [] else (i, start) ∷ cut states current

abbrev pub matched_now : ℕ → Option ℕ → Option SearchMatch → Option SearchMatch
matched_now sp none matched = matched
matched_now sp (some start) matched = some (record { start = start; end = sp })

-- The threads after a character, and a new one while there is no match.
unfoldable pub next_threads :
    (ℕ → List ℕ) → Nfa → ℕ → ℕ → Option SearchMatch → ThreadList → ThreadList
unfolding follow_threads add_thread
next_threads variants nfa sp c matched current =
    let buffer = follow_threads nfa.states (variants c) current no_threads in
    if is_some matched
    then buffer.threads
    else (add_thread nfa.states nfa.start (sp + 1) buffer).threads

unfoldable pub find_from :
    (ℕ → List ℕ) → Nfa → ℕ → Option SearchMatch → ThreadList → List ℕ → Option SearchMatch
unfolding match_start cut next_threads
find_from variants nfa sp matched current [] =
    matched_now sp (match_start nfa.states current) matched
find_from variants nfa sp matched current (c ∷ cs) =
    let now = matched_now sp (match_start nfa.states current) matched in
    let left = cut nfa.states current in
    let rest = find_from variants nfa (sp + 1) now (next_threads variants nfa sp c now left) cs in
    if is_empty left && is_some now then now else rest

-- `find` on the characters of the line.
unfoldable pub find_in : (ℕ → List ℕ) → Nfa → List ℕ → Option SearchMatch
unfolding find_from add_thread
find_in variants nfa cps =
    find_from variants nfa 0 none (add_thread nfa.states nfa.start 0 no_threads).threads cps
