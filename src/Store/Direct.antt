-- ===== src/Store/Direct.antt =====
-- Operations of internal/store outside a transaction: the observers see each event at once.
use cinc_server_ng.Prelude.{◌≡◌, none, arith}
use cinc_server_ng.Store.Memory.{
  Memory, create_object, put_object, delete_object, create_org, delete_org, put_blob, delete_blob,
}
use cinc_server_ng.Store.Watch.{deliver}
use cinc_server_ng.Store.Facade.{
  Store, emit, note, note_write, Op, create_op, put_op, get_op, delete_op, create_org_op,
  delete_org_op, put_blob_op, delete_blob_op, step,
}
use cinc_server_ng.Store.Tx.{reports}

-- The backend after an operation.
abbrev pub backend_after : Op → Memory → Memory
backend_after (create_op org coll key val) m = (create_object m org coll key val).1
backend_after (put_op org coll key val) m = put_object m org coll key val
backend_after (get_op org coll key) m = m
backend_after (delete_op org coll key) m = (delete_object m org coll key).1
backend_after (create_org_op name) m = (create_org m name).1
backend_after (delete_org_op name) m = (delete_org m name).1
backend_after (put_blob_op org checksum content) m = put_blob m org checksum content
backend_after (delete_blob_op org checksum) m = delete_blob m org checksum

module _ {W : Type 0} (op : Op) (s : Store W) where
  pub step-backend : (step op s).1.backend ≡ backend_after op s.backend
  unfolding step note note_write emit
  step-backend = ground arith

  pub step_keeps : s.buffer ≡ none → ((step op s).1.watch ≡ s.watch) × ((step op s).1.buffer ≡ none)
  unfolding step note note_write emit
  step_keeps b = ground arith

  pub step-world :
      s.buffer ≡ none → (step op s).1.world ≡ deliver s.watch (reports op s.backend) s.world
  unfolding step note note_write emit deliver
  step-world b = ground arith
