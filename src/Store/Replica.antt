-- ===== src/Store/Replica.antt =====
-- The write stream of internal/store/watch.go is complete: an observer that knows the store by its
-- events alone always holds what the store holds.
use cinc_server_ng.Prelude.{
  ◌≡◌, sym, All, refl, ◌∙◌, inl, inr, Option-cases, false, ◌&&◌, Option, none, List, [], ◌∷◌, arith,
  Bytes, eq_iff, eq_refl, ◌==◌, if◌then◌else◌,
}
use cinc_server_ng.Store.Memory.{get_object, put_object}
use cinc_server_ng.Store.Memory.Laws.{
  same_path, get-new_memory, get-set_object, get-delete_object, get-create_object, get-delete_org,
  create_object-conflict, delete_object-value, delete_org-existed, get-create_org, get-put_blob,
  get-delete_blob,
}
use cinc_server_ng.Store.Watch.{Event, emit_direct}
use cinc_server_ng.Store.Facade.{
  Store, emit, note, note_write, run_tx, Op, create_op, put_op, get_op, delete_op, create_org_op,
  delete_org_op, put_blob_op, delete_blob_op, Prog, finish, call, step, exec, new_store,
  watch_store,
}
use cinc_server_ng.Store.Direct.{step_keeps}
use cinc_server_ng.Store.Tx.{run_tx_commit, run_tx_rollback}

-- What the observer knows: the object at each path.
abbrev pub View : Type 0
View = Bytes → Bytes → Bytes → Option Bytes

-- The observer reads an event as the derived indexes do: a removal with no collection is the drop
-- of an organisation.
abbrev pub follow : Event → View → View
follow ev v o c k =
    if ev.deleted && ev.collection == []
    then (if ev.org == o then none else v o c k)
    else (if same_path ev.org ev.collection ev.key o c k
        then (if ev.deleted then none else ev.value)
        else v o c k)

-- The operation names a collection.
abbrev pub IsNamed : Op → Type 0
IsNamed (create_op org coll key val) = (coll == []) ≡ false
IsNamed (put_op org coll key val) = (coll == []) ≡ false
IsNamed (delete_op org coll key) = (coll == []) ≡ false
IsNamed _ = Unit

abbrev pub AreNamed : Prog → Type 0
AreNamed (finish e) = Unit
AreNamed (call op k) = IsNamed op × ((r : _) → AreNamed (k r))

pub record Tracks (s : Store View) : Type 0 where
  pub alone : s.watch ≡ follow ∷ []
  pub direct : s.buffer ≡ none
  pub same : (o c k : Bytes) → s.world o c k ≡ get_object s.backend o c k

step-same :
    (op : Op) (s : Store View) (o c k : Bytes)
    → IsNamed op
    → s.watch ≡ follow ∷ []
    → s.buffer ≡ none
    → s.world o c k ≡ get_object s.backend o c k
    → ((step op s).1.world o c k ≡ get_object (step op s).1.backend o c k)
unfolding step note note_write emit emit_direct put_object
step-same (create_op org coll key val) s o c k h f b e = ground (
  arith,
  get-create_object s.backend org coll key o c k val,
  create_object-conflict s.backend org coll key val,
)
step-same (put_op org coll key val) s o c k h f b e =
    ground (arith, get-set_object s.backend org coll key o c k val)
step-same (delete_op org coll key) s o c k h f b e = ground (
  arith,
  get-delete_object s.backend org coll key o c k,
  delete_object-value s.backend org coll key,
  eq_iff org o,
  eq_iff coll c,
  eq_iff key k,
)
step-same (delete_org_op name) s o c k h f b e = ground (
  arith,
  get-delete_org s.backend name [] [] o c k,
  delete_org-existed s.backend name,
  eq_refl [],
)
step-same (get_op org coll key) s o c k h f b e = ground arith
step-same (create_org_op name) s o c k h f b e = ground (arith, get-create_org s.backend name o c k)
step-same (put_blob_op org checksum content) s o c k h f b e =
    ground (arith, get-put_blob s.backend org checksum content o c k)
step-same (delete_blob_op org checksum) s o c k h f b e =
    ground (arith, get-delete_blob s.backend org checksum o c k)

exec-Tracks : (p : Prog) (s : Store View) → AreNamed p → Tracks s → Tracks (exec p s).1
unfolding exec
exec-Tracks (finish e) s h t = t
exec-Tracks (call op k) s (h, hs) t =
    let (w, b) = step_keeps op s t.direct in
    exec-Tracks (k (step op s).0) (step op s).1 (hs (step op s).0) (record {
      alone = w ∙ t.alone;
      direct = b;
      same = λ o c k. step-same op s o c k h t.alone t.direct (t.same o c k);
    })

run_tx-Tracks : (p : Prog) (s : Store View) → AreNamed p → Tracks s → Tracks (run_tx (exec p) s).1
run_tx-Tracks p s h t = elim (Option-cases (exec p s).0) [
  | inl e ↦ rw (run_tx_commit p s e) (exec-Tracks p s h t)
  | inr (err, e) ↦
      let (_, same_backend, same_world, same_buffer, same_watch) = run_tx_rollback p s err e in
      record {
        alone = same_watch ∙ t.alone;
        direct = same_buffer ∙ t.direct;
        same = λ o c k. rw (same_world, same_backend) (t.same o c k);
      }
]

-- A request works on the store directly, or in a transaction.
pub data Request : Type 0 where
  plain atomic : Prog → Request

abbrev pub program : Request → Prog
program (plain p) = p
program (atomic p) = p

pub serve : List Request → Store View → Store View
serve [] s = s
serve (plain p ∷ rest) s = serve rest (exec p s).1
serve (atomic p ∷ rest) s = serve rest (run_tx (exec p) s).1

serve-Tracks :
    (rs : List Request) (s : Store View)
    → All (λ r. AreNamed (program r)) rs
    → Tracks s
    → Tracks (serve rs s)
unfolding serve
serve-Tracks [] s h t = t
serve-Tracks (plain p ∷ rs) s (h, hs) t = serve-Tracks rs (exec p s).1 hs (exec-Tracks p s h t)
serve-Tracks (atomic p ∷ rs) s (h, hs) t =
    serve-Tracks rs (run_tx (exec p) s).1 hs (run_tx-Tracks p s h t)

-- A new store, watched by one observer that starts with nothing.
pub watched : Store View
unfolding new_store watch_store
watched = watch_store (new_store (λ o c k. none)) follow

watched-Tracks : Tracks watched
unfolding watched
watched-Tracks = record { alone = refl; direct = refl; same = λ o c k. sym (get-new_memory o c k) }

-- After any requests, failed ones and transactions that were rolled back included, an observer that
-- was registered before the first one and that knows only the events holds exactly the objects that
-- the store holds, if no request names the empty collection.
pub replica_exact :
    (rs : List Request) (o c k : Bytes)
    → All (λ r. AreNamed (program r)) rs
    → (serve rs watched).world o c k ≡ get_object (serve rs watched).backend o c k
replica_exact rs o c k h = (serve-Tracks rs watched h watched-Tracks).same o c k
