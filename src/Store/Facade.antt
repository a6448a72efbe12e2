-- ===== src/Store/Facade.antt =====
-- internal/store/store.go: `Store` and `Org`, the facade over the backend. A handle `Org` is the
-- organisation's name beside the store, since all else that it holds is the store's.
use cinc_server_ng.Prelude.{
  ℕ, ◌+◌, ◌%◌, Bool, true, false, Option, none, some, List, [], ◌∷◌, ◌++◌, Bytes, lit, ◌==◌,
  if◌then◌else◌,
}
use cinc_server_ng.Store.Memory.{
  Memory, Error, tx, new_memory, get_object, put_object, create_object, delete_object, range,
  put_blob, delete_blob, create_org, delete_org,
}
use cinc_server_ng.Store.Watch.{Event, Watchers, add_watcher, emit_direct}

-- atomic.Int64 and atomic.Uint64 as 64-bit patterns: Add(1)
unfoldable pub add_one : ℕ → ℕ
add_one n = (n + 1) % 18446744073709551616

pub record Counts : Type 0 where
  pub reads : ℕ
  pub writes : ℕ
  pub deletes : ℕ
  pub scans : ℕ

-- `buffer` is the emitter: `none` is the observers themselves, `some` a transaction's buffer.
pub record Store (W : Type 0) : Type 0 where
  pub backend : Memory
  pub groups_gen : ℕ
  pub watch : Watchers W
  pub buffer : Option (List Event)
  pub world : W
  pub counts : Counts

-- groupsColl
unfoldable pub groups_coll : Bytes
groups_coll = lit "groups"

abbrev pub buffered : Option (List Event) → List Event
buffered none = []
buffered (some evs) = evs

module _ {W : Type 0} where
  -- New, with the world in which the observers live
  unfoldable pub new_store : W → Store W
  unfolding new_memory
  new_store w = record {
    backend = new_memory;
    groups_gen = 0;
    watch = [];
    buffer = none;
    world = w;
    counts = record { reads = 0; writes = 0; deletes = 0; scans = 0 };
  }

  -- Watch
  unfoldable pub watch_store : Store W → (Event → W → W) → Store W
  unfolding add_watcher
  watch_store s fn = record s { watch = add_watcher s.watch fn }

  -- s.events.emit
  unfoldable pub emit : Event → Store W → Store W
  emit ev s = elim s.buffer [
    | none ↦ record s { world = emit_direct s.watch ev s.world }
    | some evs ↦ record s { buffer = some (evs ++ ev ∷ []) }
  ]

  -- noteWrite
  unfoldable pub note_write : Bytes → Store W → Store W
  unfolding groups_coll add_one
  note_write coll s =
      if coll == groups_coll then record s { groups_gen = add_one s.groups_gen } else s

  -- note
  unfoldable pub note : Bytes → Bytes → Bytes → Option Bytes → Bool → Store W → Store W
  unfolding emit note_write
  note org coll key val deleted s =
      emit (record { org = org; collection = coll; key = key; value = val; deleted = deleted })
        (note_write coll s)

  abbrev count_read : Store W → Store W
  count_read s = record s { counts = record s.counts { reads = add_one s.counts.reads } }

  abbrev count_write : Store W → Store W
  count_write s = record s { counts = record s.counts { writes = add_one s.counts.writes } }

  abbrev count_delete : Store W → Store W
  count_delete s = record s { counts = record s.counts { deletes = add_one s.counts.deletes } }

  abbrev count_scan : Store W → Store W
  count_scan s = record s { counts = record s.counts { scans = add_one s.counts.scans } }

  unfoldable pub create : Bytes → Bytes → Bytes → Bytes → Store W → Option Error × Store W
  create org coll key val s =
      let (e, m) = create_object s.backend org coll key val in
      let t = record (count_write s) { backend = m } in
      elim e [ none ↦ (none, note org coll key (some val) false t) | some err ↦ (some err, t) ]

  unfoldable pub put : Bytes → Bytes → Bytes → Bytes → Store W → Store W
  put org coll key val s =
      note org coll key (some val) false
        (record (count_write s) { backend = put_object s.backend org coll key val })

  -- Get, and View, which has the same body
  unfoldable pub get_value : Bytes → Bytes → Bytes → Store W → Option Bytes × Store W
  get_value org coll key s = (get_object s.backend org coll key, count_read s)

  unfoldable pub range_store {ℓ} :
      {S : Type ℓ} → Bytes → Bytes → (Bytes → Bytes → S → Bool × S) → S → Store W → S × Store W
  range_store org coll fn a s = (range s.backend org coll fn a, count_scan s)

  unfoldable pub delete_value : Bytes → Bytes → Bytes → Store W → Option Bytes × Store W
  delete_value org coll key s =
      let (old, m) = delete_object s.backend org coll key in
      let t = record (count_delete s) { backend = m } in
      elim old [ none ↦ (none, t) | some v ↦ (some v, note org coll key none true t) ]

  -- CreateOrg
  unfoldable pub create_organization : Bytes → Store W → Option Error × Store W
  create_organization name s =
      let (e, m) = create_org s.backend name in (e, record s { backend = m })

  -- DeleteOrg: an organisation-wide drop is an event with no collection.
  unfoldable pub delete_organization : Bytes → Store W → Bool × Store W
  delete_organization name s =
      let (existed, m) = delete_org s.backend name in
      let t = record s { backend = m } in
      let ev : Event = record {
        org = name;
        collection = [];
        key = [];
        value = none;
        deleted = true;
      } in
      if existed then (true, emit ev t) else (false, t)

  unfoldable pub put_blob_store : Bytes → Bytes → Bytes → Store W → Store W
  put_blob_store org checksum content s = record s {
    backend = put_blob s.backend org checksum content;
  }

  unfoldable pub delete_blob_store : Bytes → Bytes → Store W → Store W
  delete_blob_store org checksum s = record s { backend = delete_blob s.backend org checksum }

  -- Tx: `fn` sees the store with a fresh buffer. On success the buffer is replayed into the
  -- emitter of the store itself, which may be another transaction's buffer. On an error the backend
  -- restores its snapshot and the buffer is dropped; the counters are shared and stay.
  unfoldable pub flush : List Event → Store W → Store W
  unfolding emit
  flush [] s = s
  flush (ev ∷ evs) s = flush evs (emit ev s)

  unfoldable pub run_tx : (Store W → Option Error × Store W) → Store W → Option Error × Store W
  unfolding flush tx
  run_tx fn s =
      let (e, t) =
        tx (λ x. x.backend) (λ x m. record x { backend = m }) fn (record s { buffer = some [] }) in
      elim e [
        | none ↦ (none, flush (buffered t.buffer) (record t { buffer = s.buffer }))
        | some err ↦ (some err, record t { buffer = s.buffer })
      ]

-- What a client of the store may call, and what it gets back.
pub data Op : Type 0 where
  create_op put_op : (org coll key val : Bytes) → Op
  get_op delete_op : (org coll key : Bytes) → Op
  create_org_op delete_org_op : Bytes → Op
  put_blob_op : (org checksum content : Bytes) → Op
  delete_blob_op : (org checksum : Bytes) → Op

pub data Reply : Type 0 where
  done : Reply
  failed : Option Error → Reply
  value : Option Bytes → Reply
  flag : Bool → Reply

-- A function that works on the store: it calls one operation after another, each depending on the
-- replies so far, and returns an error or nil.
pub data Prog : Type 0 where
  finish : Option Error → Prog
  call : Op → (Reply → Prog) → Prog

module _ {W : Type 0} where
  unfoldable pub step : Op → Store W → Reply × Store W
  unfolding create put get_value delete_value create_organization delete_organization put_blob_store
      delete_blob_store
  step (create_op org coll key val) s = let (e, t) = create org coll key val s in (failed e, t)
  step (put_op org coll key val) s = (done, put org coll key val s)
  step (get_op org coll key) s = let (v, t) = get_value org coll key s in (value v, t)
  step (delete_op org coll key) s = let (v, t) = delete_value org coll key s in (value v, t)
  step (create_org_op name) s = let (e, t) = create_organization name s in (failed e, t)
  step (delete_org_op name) s = let (b, t) = delete_organization name s in (flag b, t)
  step (put_blob_op org checksum content) s = (done, put_blob_store org checksum content s)
  step (delete_blob_op org checksum) s = (done, delete_blob_store org checksum s)

  unfoldable pub exec : Prog → Store W → Option Error × Store W
  unfolding step
  exec (finish e) s = (e, s)
  exec (call op k) s = let (r, t) = step op s in exec (k r) t
