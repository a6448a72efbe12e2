-- ===== src/Store/Tests.antt =====
-- Runs of internal/store on small inputs, and the theorems at them.
use cinc_server_ng.Prelude.{
  ℕ, ◌≡◌, refl, ◌+◌, false, ◌&&◌, not, Option, none, some, List, [], ◌∷◌, is_some, lit, ◌==◌,
  if◌then◌else◌,
}
use cinc_server_ng.Store.Memory.{
  Memory, Error, other, new_memory, get_object, create_object, delete_object, put_object,
  create_org, delete_org, has_org,
}
use cinc_server_ng.Store.Memory.Laws.{
  same_path, get-create_object, get-delete_object, get-delete_org,
}
use cinc_server_ng.Store.Watch.{emit_direct}
use cinc_server_ng.Store.Facade.{
  Store, new_store, watch_store, note, run_tx, put_op, create_org_op, create_op, delete_org_op,
  Prog, finish, call, exec,
}
use cinc_server_ng.Store.Tx.{run_tx_commit, run_tx_rollback}
use cinc_server_ng.Store.Replica.{Request, plain, atomic, serve, watched, replica_exact}

-- A store with an observer that counts the events.
abbrev counting : Store ℕ
counting = watch_store (new_store 0) (λ ev n. n + 1)

-- A function that writes two nodes and returns the given error.
abbrev two_nodes : Option Error → Prog
two_nodes e =
    call (put_op (lit "acme") (lit "nodes") (lit "n1") (lit "{}"))
      (λ r. call (put_op (lit "acme") (lit "nodes") (lit "n2") (lit "{}")) (λ r'. finish e))

exec_error : (e : Option Error) → (exec (two_nodes e) counting).0 ≡ e
unfolding exec
exec_error e = refl

tx_tests :
    ((run_tx (exec (two_nodes none)) counting).1.world ≡ 2)
    × ((run_tx (exec (two_nodes (some other))) counting).1.world ≡ 0)
unfolding exec run_tx watch_store new_store note emit_direct lit ◌==◌
tx_tests = (refl, refl)

run_tx_commit_example : run_tx (exec (two_nodes none)) counting ≡ exec (two_nodes none) counting
run_tx_commit_example = run_tx_commit (two_nodes none) counting (exec_error none)

run_tx_rollback_example :
    ((run_tx (exec (two_nodes (some other))) counting).0 ≡ some other)
    × ((run_tx (exec (two_nodes (some other))) counting).1.backend ≡ counting.backend)
    × ((run_tx (exec (two_nodes (some other))) counting).1.world ≡ counting.world)
    × ((run_tx (exec (two_nodes (some other))) counting).1.buffer ≡ counting.buffer)
    × ((run_tx (exec (two_nodes (some other))) counting).1.watch ≡ counting.watch)
run_tx_rollback_example =
    run_tx_rollback (two_nodes (some other)) counting other (exec_error (some other))

-- A request that makes an organisation and a node, one that fails and is rolled back, and one that
-- drops the organisation.
abbrev requests : List Request
requests =
    plain (
      call (create_org_op (lit "acme")) (λ r.
        call (create_op (lit "acme") (lit "nodes") (lit "n1") (lit "{}")) (λ r'. finish none)))
    ∷ atomic (two_nodes (some other))
    ∷ plain (call (delete_org_op (lit "acme")) (λ r. finish none))
    ∷ []

nodes_IsNamed : (lit "nodes" == []) ≡ false
unfolding lit ◌==◌
nodes_IsNamed = refl

replica_exact_example :
    (serve requests watched).world (lit "acme") (lit "nodes") (lit "n1")
    ≡ get_object (serve requests watched).backend (lit "acme") (lit "nodes") (lit "n1")
replica_exact_example = replica_exact requests (lit "acme") (lit "nodes") (lit "n1") (
  (tt, λ r. (nodes_IsNamed, λ r'. tt)),
  ((nodes_IsNamed, λ r. (nodes_IsNamed, λ r'. tt)), ((tt, λ r. tt), tt)),
)

-- An organisation with one node.
abbrev one_node : Memory
one_node =
    put_object (create_org new_memory (lit "acme")).1 (lit "acme") (lit "nodes") (lit "n1")
      (lit "{}")

get-create_object_example :
    get_object
      (create_object one_node (lit "acme") (lit "nodes") (lit "n1") (lit "[]")).1
      (lit "acme")
      (lit "nodes")
      (lit "n1")
    ≡ (if same_path (lit "acme") (lit "nodes") (lit "n1") (lit "acme") (lit "nodes") (lit "n1")
          && not (is_some (get_object one_node (lit "acme") (lit "nodes") (lit "n1")))
        then some (lit "[]")
        else get_object one_node (lit "acme") (lit "nodes") (lit "n1"))
get-create_object_example =
    get-create_object one_node (lit "acme") (lit "nodes") (lit "n1") (lit "acme") (lit "nodes")
      (lit "n1") (lit "[]")

get-delete_object_example :
    get_object
      (delete_object one_node (lit "acme") (lit "nodes") (lit "n1")).1
      (lit "acme")
      (lit "nodes")
      (lit "n1")
    ≡ (if same_path (lit "acme") (lit "nodes") (lit "n1") (lit "acme") (lit "nodes") (lit "n1")
        then none
        else get_object one_node (lit "acme") (lit "nodes") (lit "n1"))
get-delete_object_example =
    get-delete_object one_node (lit "acme") (lit "nodes") (lit "n1") (lit "acme") (lit "nodes")
      (lit "n1")

get-delete_org_example :
    get_object (delete_org one_node (lit "acme")).1 (lit "acme") (lit "nodes") (lit "n1") ≡ (
      if has_org one_node (lit "acme") && lit "acme" == lit "acme"
      then none
      else get_object one_node (lit "acme") (lit "nodes") (lit "n1"))
get-delete_org_example =
    get-delete_org one_node (lit "acme") (lit "nodes") (lit "n1") (lit "acme") (lit "nodes")
      (lit "n1")
