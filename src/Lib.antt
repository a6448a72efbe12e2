-- ===== src/Lib.antt =====
-- A verification library for cinc-server-ng, a Chef-compatible configuration server: its store, its
-- search, and its authorization, which are the parts that every endpoint goes through, and the order of
-- cookbook versions with the constraints on them, the users of an organisation, and run lists.
--
-- How the parts interact. A handler works on an `Org`, a handle of the store, which passes writes on
-- to a backend and tells observers of each write. The search indexes are such observers: a query is
-- parsed, planned over the postings of an index, and answered without reading the documents. Before
-- a handler runs, `authorize` classifies the request by method and path, looks up the ACL of the
-- object in the store, or the default policy, and lets the request through or not. The groups of an
-- actor are recorded in the store as well, one row for each member that joins.
--
-- Store
--   Store/Memory.antt    internal/store/memory.go: memoryBackend as a record of three maps, one function
--                        for each method (Get is get_object, set is set_object, and so on)
--   Store/Watch.antt     internal/store/watch.go: Event and the registered observers
--   Store/Facade.antt    internal/store/store.go and the transaction buffer of watch.go: Store, the
--                        methods of Org (Put is put, Get and View are get_value) and Store.Tx (run_tx);
--                        the functions that callers pass to Tx are programs of store operations
--   Store/Tx.antt, Store/Replica.antt    the transactions, and the write stream as a whole
-- Search
--   Search/Query.antt    internal/search/query.go: the queries and Matches
--   Search/Glob.antt, Search/Lexer.antt, Search/Parser.antt    the rest of that file: wildcardToRegexp
--                        (pieces), buildTerm, lex, and Parse with one function for each method of parser
--   Search/Sets.antt, Search/Plan.antt    internal/search/plan.go
--   Search/Index.antt    internal/api/searchindex.go: collIndex with put, remove and retract, and its view
--   Search/Engine.antt   the three together, over a history of changes
--   Search/Json.antt, Search/Flatten.antt    decoded JSON, and internal/search/flatten.go (walk has one
--                        function for a value, the elements of an array and the members of an object)
--   Search/Merge.antt    internal/api/search.go: nodeSearchDoc with deepMerge, and traversePath
--   Search/Registry.antt internal/api/searchindex.go: searchIndexes (get is get_index) as an observer of
--                        the store, and putRaw; Registry/Exact puts it beside the store
--   Search/Results.antt  internal/api/search.go: resolveIndex, findMatches and what it calls, with the window
--                        of the rows in Results/Window
--   Search/Readable.antt the same file: filterReadable and searchReadFilter
-- Authz
--   Authz/Classify.antt  internal/api/authz_enforce.go: classifyRequest and its helpers
--   Authz/Policy.antt    internal/api/acl_policy.go, and the default ACLs of internal/api/acl.go
--   Authz/Open.antt      internal/api/failclosed.go
--   Authz/Enforce.antt   internal/api/authz_enforce.go and preread.go: authorize and what it calls
--   Authz/Documents.antt internal/api/authzdoc.go: decodeReadACE (decode_read_ace), and the decoding of an ACL
--                        in loadACL; Documents/Typed is what encoding/json does with the struct
-- Groups
--   Groups/Members.antt  internal/api/groupmembers.go: the rows that record members one by one
--   Groups/Index.antt    internal/api/groupindex.go: buildGroupIndex and membership; Reach has the proof
--   Groups/Documents.antt  the same file: the members in a group's document; Groups/Codec is what it and the
--                        handlers use of encoding/json
-- Orgs
--   Orgs/Answer.antt     internal/api/respond.go and API.org of api.go: what a handler answers
--   Orgs/Invites.antt    internal/api/association_requests.go: createInvite is create_invite, and so on
--   Orgs/Associations.antt  internal/api/association.go
--   Orgs/Requests.antt   the handlers of both that change the store, as one function of a request; the
--                        files below it prove when it refuses, who joins, and what accepting does
-- Versions
--   Versions.antt             compareVersions of internal/api/cookbooks.go
--   Versions/Constraint.antt  internal/api/constraint.go: satisfiesConstraint and its helpers
-- Runlist
--   Runlist.antt         internal/runlist/runlist.go, on a parsed document (Normalize is normalize_items);
--                        Runlist/Distinct has what it gives, Runlist/Canonical the whole document
-- Prelude has what these share: byte strings with the functions of package strings, maps behind
-- get, set and delete with their laws, Boolean tests, and results.
--
-- Numbers are natural numbers; the 64-bit counters wrap around at 2 ^ 64. The lexer has fuel for one
-- round more than the text has bytes, since each round takes one, and the parser five calls for each
-- token and five more. The expansion of groups has as much as there are names that it could add.
--
-- Parameters: encoding/json in the handlers (Codec), the runtime's floats and lower case (Runtime), the
-- decoding of an ACL or a document (decode), json.Unmarshal of an ACL into the struct of its read entry
-- (unmarshal_read) and the case that it ignores in the names of members (fold), the decoding of a group's
-- document for the index of groups (members), strconv.Atoi (atoi), the resolution of an actor's groups
-- in a decision (groups_of), the router's answer (matched), and the integers of a version's segments
-- (Ints, successor).
-- Not modelled: the locks, since each operation is one step; the errors of a backend on disk; HTTP and
-- the writing of JSON; the caches of flattened documents and of group indexes; the handlers of other
-- endpoints than search and the users of an organisation; the SQLite backend; authentication.
pub mod Prelude
pub mod Store
pub mod Search
pub mod Authz
pub mod Groups
pub mod Orgs
pub mod Versions
pub mod Runlist
