-- ===== src/Store/Reads.antt =====
-- What a read finds after a write through the facade of internal/store/store.go.
use cinc_server_ng.Prelude.{◌≡◌, none, some, arith, Bytes, if◌then◌else◌}
use cinc_server_ng.Store.Memory.{get_object, put_object}
use cinc_server_ng.Store.Memory.Laws.{same_path, get-set_object, get-delete_object}
use cinc_server_ng.Store.Facade.{Store, put, delete_value, note, note_write, emit}

module _ {W : Type 0} where
  pub get-delete_value :
      (org coll key o c k : Bytes) (s : Store W)
      → get_object (delete_value org coll key s).1.backend o c k
        ≡ (if same_path org coll key o c k then none else get_object s.backend o c k)
  unfolding delete_value note note_write emit
  get-delete_value org coll key o c k s =
      ground (arith, get-delete_object s.backend org coll key o c k)

  pub get-put :
      (org coll key val o c k : Bytes) (s : Store W)
      → get_object (put org coll key val s).backend o c k
        ≡ (if same_path org coll key o c k then some val else get_object s.backend o c k)
  unfolding put put_object note note_write emit
  get-put org coll key val o c k s = ground (arith, get-set_object s.backend org coll key o c k val)
