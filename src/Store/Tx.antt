-- ===== src/Store/Tx.antt =====
-- Transactions of internal/store: a transaction that commits is the same as its operations run one
-- by one, and one that fails leaves no trace but in the counters.
use cinc_server_ng.Prelude.{
  ◌≡◌, refl, sym, ap, ◌∙◌, Bool, true, false, Option, none, some, List, [], ◌∷◌, ◌++◌, arith, Bytes,
  append_assoc, append-nil, Option-cases, inl, inr, if◌then◌else◌,
}
use cinc_server_ng.Store.Memory.{Memory, Error, create_object, delete_object, delete_org}
use cinc_server_ng.Store.Watch.{Event, deliver, emit_direct, deliver-append}
use cinc_server_ng.Store.Facade.{
  Store, emit, note, note_write, flush, run_tx, Op, create_op, put_op, delete_op, delete_org_op,
  Prog, finish, call, step, exec,
}

abbrev written : Bytes → Bytes → Bytes → Option Bytes → Bool → Event
written org coll key val deleted = record {
  org = org;
  collection = coll;
  key = key;
  value = val;
  deleted = deleted;
}

-- The events that an operation reports on a given backend: one if it changes something, else none.
abbrev pub reports : Op → Memory → List Event
reports (create_op org coll key val) m = elim (create_object m org coll key val).0 [
  | none ↦ written org coll key (some val) false ∷ []
  | some e ↦ []
]
reports (put_op org coll key val) m = written org coll key (some val) false ∷ []
reports (delete_op org coll key) m = elim (delete_object m org coll key).0 [
  | none ↦ []
  | some v ↦ written org coll key none true ∷ []
]
reports (delete_org_op name) m =
    if (delete_org m name).0 then written name [] [] none true ∷ [] else []
reports _ m = []

module _ {W : Type 0} where
  -- A store inside a transaction, as it would be if the buffered events had gone to the emitter `o`.
  released : Option (List Event) → List Event → Store W → Store W
  released none evs s = record s { buffer = none; world = deliver s.watch evs s.world }
  released (some os) evs s = record s { buffer = some (os ++ evs) }

  flush-eq-released :
      (o : Option (List Event)) (evs : List Event) (s : Store W)
      → flush evs (record s { buffer = o }) ≡ released o evs s
  unfolding flush emit released deliver
  flush-eq-released none [] s = refl
  flush-eq-released none (ev ∷ evs) s =
      flush-eq-released none evs (record s { world = emit_direct s.watch ev s.world })
  flush-eq-released (some os) [] s = rw append-nil
  flush-eq-released (some os) (ev ∷ evs) s =
      rw (flush-eq-released (some (os ++ ev ∷ [])) evs s)
        (ap (λ l. record s { buffer = some l }) (append_assoc os (ev ∷ []) evs))

  -- An operation in a transaction is the operation itself, with its events held back.
  step-released :
      (o : Option (List Event)) (op : Op) (evs : List Event) (s : Store W)
      → s.buffer ≡ some evs
      → ((step op s).1.buffer ≡ some (evs ++ reports op s.backend))
        × (step op (released o evs s)
            ≡ ((step op s).0, released o (evs ++ reports op s.backend) (step op s).1))
  unfolding step released note note_write emit deliver
  step-released none (create_op org coll key val) evs s h = (
    ground (arith, append-nil evs),
    ground (
      arith,
      append-nil evs,
      deliver-append s.watch evs (written org coll key (some val) false ∷ []) s.world,
    ),
  )
  step-released none (put_op org coll key val) evs s h = (
    ground arith,
    ground (arith, deliver-append s.watch evs (written org coll key (some val) false ∷ []) s.world),
  )
  step-released none (delete_op org coll key) evs s h = (
    ground (arith, append-nil evs),
    ground (
      arith,
      append-nil evs,
      deliver-append s.watch evs (written org coll key none true ∷ []) s.world,
    ),
  )
  step-released none (delete_org_op name) evs s h = (
    ground (arith, append-nil evs),
    ground (
      arith,
      append-nil evs,
      deliver-append s.watch evs (written name [] [] none true ∷ []) s.world,
    ),
  )
  step-released none _ evs s h = (ground (arith, append-nil evs), ground (arith, append-nil evs))
  step-released (some os) (create_op org coll key val) evs s h = (
    ground (arith, append-nil evs),
    ground
        (arith, append-nil evs, append_assoc os evs (written org coll key (some val) false ∷ [])),
  )
  step-released (some os) (put_op org coll key val) evs s h = (
    ground arith,
    ground (arith, append_assoc os evs (written org coll key (some val) false ∷ [])),
  )
  step-released (some os) (delete_op org coll key) evs s h = (
    ground (arith, append-nil evs),
    ground (arith, append-nil evs, append_assoc os evs (written org coll key none true ∷ [])),
  )
  step-released (some os) (delete_org_op name) evs s h = (
    ground (arith, append-nil evs),
    ground (arith, append-nil evs, append_assoc os evs (written name [] [] none true ∷ [])),
  )
  step-released (some os) _ evs s h =
      (ground (arith, append-nil evs), ground (arith, append-nil evs))

  -- Inside a transaction the observers see nothing.
  step_quiet :
      (op : Op) (evs : List Event) (s : Store W)
      → s.buffer ≡ some evs
      → ((step op s).1.world ≡ s.world) × ((step op s).1.watch ≡ s.watch)
  unfolding step note note_write emit
  step_quiet (put_op org coll key val) evs s h = ground arith
  step_quiet op evs s h = ground arith

  exec_quiet :
      (p : Prog) (evs : List Event) (s : Store W)
      → s.buffer ≡ some evs
      → ((exec p s).1.world ≡ s.world) × ((exec p s).1.watch ≡ s.watch)
  unfolding exec
  exec_quiet (finish e) evs s h = (refl, refl)
  exec_quiet (call op k) evs s h =
      let (w, f) = step_quiet op evs s h in
      let (b, _) = step-released none op evs s h in
      let (w', f') = exec_quiet (k (step op s).0) (evs ++ reports op s.backend) (step op s).1 b in
      (w' ∙ w, f' ∙ f)

  -- The events that a function reports, run on a given store.
  abbrev held : Prog → Store W → List Event
  held (finish e) s = []
  held (call op k) s = reports op s.backend ++ held (k (step op s).0) (step op s).1

  exec-released :
      (o : Option (List Event)) (p : Prog) (evs : List Event) (s : Store W)
      → s.buffer ≡ some evs
      → ((exec p s).1.buffer ≡ some (evs ++ held p s))
        × (exec p (released o evs s) ≡ ((exec p s).0, released o (evs ++ held p s) (exec p s).1))
  unfolding exec
  exec-released o (finish e) evs s h = (rw append-nil h, rw append-nil refl)
  exec-released o (call op k) evs s h =
      let (b, e) = step-released o op evs s h in
      let (b', e') =
        exec-released o (k (step op s).0) (evs ++ reports op s.backend) (step op s).1 b in
      (rw (← append_assoc) b', rw (e, ← append_assoc) e')

  released-start : (s : Store W) → released s.buffer [] (record s { buffer = some [] }) ≡ s
  unfolding released deliver
  released-start s = elim (Option-cases s.buffer) [
    | inl e ↦ rw e refl
    | inr (os, e) ↦ rw e (ap (λ l. record s { buffer = some l }) (append-nil os))
  ]

  -- A transaction whose function succeeds is the function run on the store itself: the same backend,
  -- the same counters, and the same events to the observers, in the same order.
  pub run_tx_commit : (p : Prog) (s : Store W) → (exec p s).0 ≡ none → run_tx (exec p) s ≡ exec p s
  unfolding run_tx
  run_tx_commit p s h =
      let b = record s { buffer = some [] } in
      let (held_back, same) = exec-released s.buffer p [] b refl in
      let direct : exec p s ≡ ((exec p b).0, released s.buffer (held p b) (exec p b).1) =
        rw (released-start s) at same in
      let fine : (exec p b).0 ≡ none = ap (λ r. r.0) (sym direct) ∙ h in
      ground (arith, flush-eq-released s.buffer (held p b) (exec p b).1)

  -- A transaction whose function fails returns its error, leaves the backend, the observers and the
  -- emitter as they were, and reports nothing.
  pub run_tx_rollback :
      (p : Prog) (s : Store W) (e : Error)
      → (exec p s).0 ≡ some e
      → ((run_tx (exec p) s).0 ≡ some e)
        × ((run_tx (exec p) s).1.backend ≡ s.backend)
        × ((run_tx (exec p) s).1.world ≡ s.world)
        × ((run_tx (exec p) s).1.buffer ≡ s.buffer)
        × ((run_tx (exec p) s).1.watch ≡ s.watch)
  unfolding run_tx
  run_tx_rollback p s e h =
      let b = record s { buffer = some [] } in
      let (w, f) = exec_quiet p [] b refl in
      let (held_back, same) = exec-released s.buffer p [] b refl in
      let direct : exec p s ≡ ((exec p b).0, released s.buffer (held p b) (exec p b).1) =
        rw (released-start s) at same in
      let bad : (exec p b).0 ≡ some e = ap (λ r. r.0) (sym direct) ∙ h in
      (ground arith, ground arith, ground arith, ground arith, ground arith)
