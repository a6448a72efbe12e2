-- ===== src/Search/Registry/Exact.antt =====
-- The registry of internal/api/searchindex.go beside the store, over any history of requests.
use cinc_server_ng.Prelude.{
  ◌≡◌, refl, sym, ap, ◌∙◌, Bool, false, ◌&&◌, Option, none, some, List, [], ◌∷◌, arith, Bytes, ◌==◌,
  eq_iff, contains, IsFree, Map, empty_map, get, set, get-set, get-empty, entries, inner,
  Option-cases, Bool-cases, inl, inr, All, ok,
}
use cinc_server_ng.Prelude.Separated.{same_pair}
use cinc_server_ng.Store.Memory.{Memory, get_object, range, range_loop}
use cinc_server_ng.Store.Watch.{deliver}
use cinc_server_ng.Store.Facade.{
  Store, Prog, finish, call, Op, Reply, step, exec, run_tx, new_store, watch_store, range_store,
}
use cinc_server_ng.Store.Tx.{reports, run_tx_commit, run_tx_rollback}
use cinc_server_ng.Store.Direct.{step_keeps, step-world, step-backend, backend_after}
use cinc_server_ng.Search.Query.{Runtime, Query, Fields, matches}
use cinc_server_ng.Search.Json.{Members}
use cinc_server_ng.Search.Sets.{DocIds}
use cinc_server_ng.Search.Plan.{plan}
use cinc_server_ng.Search.Parser.{parse}
use cinc_server_ng.Search.Parser.Total.{parse-IsPlannable}
use cinc_server_ng.Search.Index.{CollIndex, new_coll_index, postings_view}
use cinc_server_ng.Search.Index.View.{index_search_exact}
use cinc_server_ng.Search.Registry.{Registry, index_key, read_document, get_index, observe}
use cinc_server_ng.Search.Registry.Shows.{Shows, fields_at, built-Shows, merge-built}
use cinc_server_ng.Search.Registry.Current.{merges, IsCurrent}
use cinc_server_ng.Search.Registry.Steps.{IsClean, op-IsCurrent}

none_is_some : (idx : CollIndex) → ◌≡◌ {A = Option CollIndex} none (some idx) → ⊥
none_is_some idx e = cc

abbrev pub AreClean : Prog → Type 0
AreClean (finish e) = Unit
AreClean (call op k) = IsClean op × ((r : Reply) → AreClean (k r))

-- A request works on the store directly, or in a transaction, or looks up an index.
pub data Request : Type 0 where
  plain atomic : Prog → Request
  lookup : (org coll : Bytes) → Request

abbrev pub IsCleanRequest : Request → Type 0
IsCleanRequest (plain p) = AreClean p
IsCleanRequest (atomic p) = AreClean p
IsCleanRequest (lookup org coll) = IsFree 0 org

module _ (to_lower : Bytes → Bytes) (decode : Bytes → Option Members) where
  record Synced (s : Store Registry) : Type 0 where
    alone : s.watch ≡ observe to_lower decode ∷ []
    direct : s.buffer ≡ none
    current : IsCurrent to_lower decode s.world s.backend

  IsCurrent-of_eq :
      (r r' : Registry) (m m' : Memory)
      → r' ≡ r
      → m' ≡ m
      → IsCurrent to_lower decode r m
      → IsCurrent to_lower decode r' m'
  IsCurrent-of_eq r r' m m' e f i = rw (e, f) i

  step-Synced : (op : Op) (s : Store Registry) → IsClean op → Synced s → Synced (step op s).1
  step-Synced op s c y =
      let (w, b) = step_keeps op s y.direct in
      record {
        alone = w ∙ y.alone;
        direct = b;
        current =
            IsCurrent-of_eq (deliver (observe to_lower decode ∷ []) (reports op s.backend) s.world)
              _ (backend_after op s.backend) _
              (step-world op s y.direct
                ∙ ap (λ fns. deliver fns (reports op s.backend) s.world) y.alone)
              (step-backend op s) (op-IsCurrent to_lower decode op s.world s.backend c y.current);
      }

  exec-Synced : (p : Prog) (s : Store Registry) → AreClean p → Synced s → Synced (exec p s).1
  unfolding exec
  exec-Synced (finish e) s c y = y
  exec-Synced (call op k) s (c, cs) y =
      exec-Synced (k (step op s).0) (step op s).1 (cs (step op s).0) (step-Synced op s c y)

  run_tx-Synced :
      (p : Prog) (s : Store Registry) → AreClean p → Synced s → Synced (run_tx (exec p) s).1
  run_tx-Synced p s c y = elim (Option-cases (exec p s).0) [
    | inl e ↦ rw (run_tx_commit p s e) (exec-Synced p s c y)
    | inr (x, e) ↦
        let (_, same_backend, same_world, same_buffer, same_watch) = run_tx_rollback p s x e in
        record {
          alone = same_watch ∙ y.alone;
          direct = same_buffer ∙ y.direct;
          current = IsCurrent-of_eq s.world _ s.backend _ same_world same_backend y.current;
        }
  ]

  insert-IsCurrent :
      (r : Registry) (m : Memory) (org coll : Bytes) (idx : CollIndex)
      → IsFree 0 org
      → Shows to_lower decode (λ id. get_object m org coll id) idx × (idx.merge ≡ merges coll)
      → IsCurrent to_lower decode r m
      → IsCurrent to_lower decode (set r (index_key org coll) idx) m
  unfolding index_key
  insert-IsCurrent r m org coll idx free shown i = record {
    shows = λ o c x fo e.
        let key = same_pair org coll o c free fo in
        let found = get-set r (index_key org coll) (index_key o c) idx in
        elim (Bool-cases (org == o && coll == c)) [
          | inl t ↦
              let eo : org ≡ o = ground (arith, eq_iff org o) in
              let ec : coll ≡ c = ground (arith, eq_iff coll c) in
              let ei : idx ≡ x = ground (arith, key, found) in rw (← eo, ← ec, ← ei) shown
          | inr u ↦ i.shows o c x fo (ground (arith, key, found))
        ];
  }

  get_index-found :
      (org coll : Bytes) (s : Store Registry) (idx : CollIndex)
      → get s.world (index_key org coll) ≡ some idx
      → get_index to_lower decode org coll (merges coll) s ≡ (idx, s)
  unfolding get_index
  get_index-found org coll s idx e = ground (arith)

  abbrev rows_of : Bytes → Bytes → Store Registry → Map Bytes
  rows_of org coll s = inner (inner s.backend.data_of org) coll

  -- the index that is built from the collection
  abbrev built : Bytes → Bytes → Store Registry → CollIndex
  built org coll s =
      range_loop (read_document to_lower decode) (entries (rows_of org coll s))
        (new_coll_index (merges coll))

  abbrev registered : Bytes → Bytes → Store Registry → Store Registry
  registered org coll s =
      record (range_store org coll (read_document to_lower decode) (new_coll_index (merges coll))
        s).1 { world = set s.world (index_key org coll) (built org coll s) }

  get_index-built :
      (org coll : Bytes) (s : Store Registry)
      → get s.world (index_key org coll) ≡ none
      → get_index to_lower decode org coll (merges coll) s
        ≡ (built org coll s, registered org coll s)
  unfolding get_index range_store range
  get_index-built org coll s e = ground (arith)

  built-Synced :
      (org coll : Bytes) (s : Store Registry)
      → IsFree 0 org
      → Synced s
      → Synced (registered org coll s)
        × Shows to_lower decode (λ id. get_object s.backend org coll id) (built org coll s)
        × ((built org coll s).merge ≡ merges coll)
  unfolding range_store get_object
  built-Synced org coll s free y =
      let shown = built-Shows to_lower decode (rows_of org coll s) (merges coll) in
      let kind = merge-built to_lower decode (rows_of org coll s) (merges coll) in
      (
        record {
          alone = y.alone;
          direct = y.direct;
          current =
              insert-IsCurrent s.world s.backend org coll (built org coll s) free (shown, kind)
                y.current;
        },
        shown,
        kind,
      )

  get_index-Synced :
      (org coll : Bytes) (s : Store Registry)
      → IsFree 0 org
      → Synced s
      → Synced (get_index to_lower decode org coll (merges coll) s).1
        × Shows to_lower decode
            (λ id. get_object s.backend org coll id)
            (get_index to_lower decode org coll (merges coll) s).0
        × ((get_index to_lower decode org coll (merges coll) s).0.merge ≡ merges coll)
  get_index-Synced org coll s free y = elim (Option-cases (get s.world (index_key org coll))) [
    | inl n ↦ rw (get_index-built org coll s n) (built-Synced org coll s free y)
    | inr (idx, e) ↦
        let (shown, kind) = y.current.shows org coll idx free e in
        rw (get_index-found org coll s idx e) (y, shown, kind)
  ]

  pub serve : List Request → Store Registry → Store Registry
  serve [] s = s
  serve (plain p ∷ rest) s = serve rest (exec p s).1
  serve (atomic p ∷ rest) s = serve rest (run_tx (exec p) s).1
  serve (lookup org coll ∷ rest) s =
      serve rest (get_index to_lower decode org coll (merges coll) s).1

  serve-Synced :
      (rs : List Request) (s : Store Registry)
      → All IsCleanRequest rs
      → Synced s
      → Synced (serve rs s)
  unfolding serve
  serve-Synced [] s h y = y
  serve-Synced (plain p ∷ rs) s (h, hs) y = serve-Synced rs (exec p s).1 hs (exec-Synced p s h y)
  serve-Synced (atomic p ∷ rs) s (h, hs) y =
      serve-Synced rs (run_tx (exec p) s).1 hs (run_tx-Synced p s h y)
  serve-Synced (lookup org coll ∷ rs) s (h, hs) y =
      serve-Synced rs (get_index to_lower decode org coll (merges coll) s).1 hs
        (get_index-Synced org coll s h y).0

  -- A new store that an empty registry watches.
  pub started : Store Registry
  unfolding new_store watch_store
  started = watch_store (new_store empty_map) (observe to_lower decode)

  started-Synced : Synced started
  unfolding started
  started-Synced = record {
    alone = refl;
    direct = refl;
    current = record {
      shows = λ o c idx fo e. absurd (none_is_some idx (sym (get-empty (index_key o c)) ∙ e));
    };
  }

  -- The document that the store holds under the id, if it decodes, passes the test.
  abbrev pub document_passes : Store Registry → Bytes → Bytes → Bytes → (Fields → Bool) → Bool
  document_passes s org coll id test =
      elim (fields_at to_lower decode (merges coll) (get_object s.backend org coll id)) [
        | none ↦ false
        | some d ↦ test d
      ]

-- After any requests, failed ones, rolled back transactions and other look-ups included, searching a
-- collection through the registry's index for a text that parses finds exactly the documents that the
-- store then holds and that the parsed query matches, if no request writes to the empty collection and
-- no name of an organisation has a zero byte.
pub registry_search_exact :
    (R : Runtime) (decode : Bytes → Option Members) (rs : List Request) (org coll s : Bytes)
    (q : Query)
    → All IsCleanRequest rs
    → IsFree 0 org
    → parse R s ≡ ok q
    → (ids : DocIds) × (plan R
          (postings_view
            (get_index R.to_lower decode org coll
              (merges coll)
              (serve R.to_lower decode rs (started R.to_lower decode))).0)
          q
        ≡ some ids)
      × ((id : Bytes)
          → contains ids id
            ≡ document_passes R.to_lower decode
                (serve R.to_lower decode rs (started R.to_lower decode))
                org
                coll
                id
                (matches R q))
registry_search_exact R decode rs org coll s q h free e =
    let st = serve R.to_lower decode rs (started R.to_lower decode) in
    let idx = (get_index R.to_lower decode org coll (merges coll) st).0 in
    let (_, shown, kind) = get_index-Synced R.to_lower decode org coll st free (
      serve-Synced R.to_lower decode rs (started R.to_lower decode) h
        (started-Synced R.to_lower decode)) in
    let (ids, planned, found) =
      index_search_exact R shown.docs idx q shown.represents (parse-IsPlannable R s q e) in
    (ids, planned, λ id. found id ∙ ground (arith, shown.same id))
