-- ===== src/Lib.antt =====
-- brainstem-mcp: an MCP server in front of a vault of markdown notes, with an OAuth server of its
-- own. These files model its core as functions of its state and prove what the parts promise.
--
-- The parts, each with the file of the repository that it is about:
--
--   Storage/Types        src/storage/types.ts: the error codes. A VaultError that is thrown is a
--                        value `err`; its message is not modelled.
--   Storage/PathPolicy   src/storage/path-policy.ts: which paths of the vault a caller may name.
--   Storage/TextDiff     src/storage/text-diff.ts: patches that must match exactly once.
--   Storage/Transaction  src/storage/transaction.ts: several operations as one. Simulate is the
--                        pre-flight on states held in memory, Run applies, journals and rolls back,
--                        Journal classifies what a crash has left; assertExpectedHash of
--                        src/storage/write-gate.ts stands in Transaction.antt. Frames, Atomic,
--                        Rollback, Restores and Outcome hold the proofs.
--   Storage/WriteGate    src/storage/write-gate.ts: the keyed mutex as a step relation on the queues
--                        of calls. Valid states the invariant, Keeps that steps keep it.
--   Auth/Store           src/auth/store/types.ts and file-store.ts: the document of clients, pending
--                        requests, codes and tokens (Store), and the class around it and its
--                        file (Store/File, with the references to documents in memory).
--   Auth/Owner           src/auth/owner.ts: the owner's secret and its lockout.
--   Auth/Token           src/auth/as/token.ts: the token and the revocation endpoint.
--   Auth/Verifier        src/auth/rs/verifier.ts: the check of an access token.
--   Vault/Canvas         src/vault/canvas.ts: operations on JSON Canvas boards.
--   Vault/Budget         src/vault/budget.ts: results that fit a number of characters.
--   Vault/Sections       src/vault/sections.ts: the section that a heading path names (Ranges) and
--                        inserting into it (Insert, Content). The headings of a note, which regular
--                        expressions find, are an argument, and so is toLowerCase.
--   Vault/SafeRegex      src/vault/safe-regex.ts: the linear-time regular expressions. Parser reads a
--                        pattern (Pattern has its classes and quantifiers), Nfa builds the automaton
--                        and Matcher runs it, Search finds the leftmost match in a line, Literals is
--                        the prefilter, and Compile puts them together. Language says what a
--                        pattern means with no automaton; toLowerCase and toUpperCase are arguments.
--   Vault/Links          src/vault/note-parse.ts: texts that are one whole wikilink, and link keys.
--   Vault/Query          src/vault/query.ts: comparisons of values (Query), the conditions of vault_query
--                        (Conditions), the notes that a query matches (Filter) and their groups
--                        (Groups). Meaning says what it is to fit a query, with no test of it. Numbers,
--                        dates, String() and getPath are arguments; the sort is stable insertion.
--   Tools/CallTracker    src/tools/call-tracker.ts: the drain of a server that stops, as a step
--                        relation on the calls that run and the await that the drain stands at.
--   Prelude              what they share: text as UTF-16 code units, lists, association lists for
--                        objects and maps (insertion order, as the language has it), stable sort.
--
-- How they meet: the condition "regex" of a query is compiled by the regular expressions, and queries
-- compare links by their keys; the token endpoint and the verifier work on the document of the store
-- and take its operations as they are; a transaction normalises paths by the path policy, applies the patches of
-- the text component and calls the storage adapter, which is a record of operations. The laws of the
-- adapter that the rollback relies on are a record, AdapterLaws: a call changes its own paths only,
-- and what is below them, the trash folder and the missing parent folders that it makes; unlinking a
-- file changes nothing else. The tests fill the record for an adapter that makes parent folders.
--
-- A function of the code is a function here, named in snake_case. Asynchronous code is run to its
-- end: the write gate lets one transaction at a time touch a path, so a run is one step. The queue of
-- FileTokenStore runs one change of the document at a time, so each operation of the store is a step.
-- A refresh at the token endpoint awaits several of them, and what other requests make of the document
-- between them is an argument, Meanwhile; the exchange of a code, the revocation and the two writes of
-- issuePair are one step each. A document of the store is an object in memory that a change alters in
-- place, and the snapshot is another object. In the rollback the parent folder of a file that is put
-- back is taken to be there. Times are milliseconds in ℕ. The file system, the clock and random numbers enter as arguments: what `stat`
-- said, whether a write succeeded, the tokens drawn. A copy that fails during a rollback is taken to
-- leave its target as it was. Hashes, diffs, YAML, zod and String.prototype.normalize are parameters.
--
-- Bounds and fuel: the binary search of prefixWithinSerialized runs on fuel, and the length of the
-- text is enough, since every round drops at least one candidate. The parser of patterns has the
-- length of what is left as fuel, for its loops and for groups in groups, and every round reads a
-- character. The closure of a state runs on twice the number of states and one, since a state is
-- entered once and pushes two. Every other loop is structural, but for that of the drain, whose
-- rounds are steps. One drain is modelled, its clock read once a round.
--
-- Not modelled: HTTP, HTML, MCP registration, the command line, the tunnel, the file system adapter
-- behind its interface, the regular expressions over note text, the presentation and the sums of
-- queries, the graph of links and the note cache.
pub mod Prelude
pub mod Storage
pub mod Auth
pub mod Vault
pub mod Tools
