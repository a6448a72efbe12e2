-- ===== src/Groups/Index/Reach.antt =====
-- The expansion of membership in internal/api/groupindex.go: which groups it finds, and that it ends.
use cinc_server_ng.Prelude.{
  ℕ, zero, suc, ◌+◌, ◌≤◌, ◌≡◌, ◌↔◌, refl, true, false, not, ◌&&◌, ◌||◌, some, List, [], ◌∷◌, ◌++◌,
  any, any-append, keep, length, length-append, arith, Bytes, ◌==◌, eq_iff, eq_refl, contains, Map,
  get, get_or, get_or_lem, entries, any-entries_complete, Option-cases, Bool-cases, inl, inr, ◌∙◌,
}
use cinc_server_ng.Groups.Index.{Walk, add_name, add_names, walk, outers, membership}

-- The groups that an actor is in: those that list it, and those that list one of its groups.
pub data Reach (nests : Map (List Bytes)) (direct : List Bytes) : Bytes → Type 0 where
  listed : (g : Bytes) → contains direct g ≡ true → Reach nests direct g
  outward :
      (g o : Bytes)
      → Reach nests direct g
      → contains (get_or nests g []) o ≡ true
      → Reach nests direct o

contains-add_names :
    (gs : List Bytes) (w : Walk) (x : Bytes)
    → contains (add_names gs w).1 x ≡ (contains w.1 x || contains gs x)
unfolding add_names add_name
contains-add_names [] (q, m) x = ground (arith)
contains-add_names (g ∷ gs) (q, m) x = ground (
  arith,
  contains-add_names gs (q, m) x,
  contains-add_names gs (q ++ g ∷ [], g ∷ m) x,
  eq_iff g x,
)

contains-add_names_queue :
    (gs : List Bytes) (w : Walk) (x : Bytes)
    → contains (add_names gs w).0 x ≡ (contains w.0 x || (contains gs x && not (contains w.1 x)))
unfolding add_names add_name
contains-add_names_queue [] (q, m) x = ground (arith)
contains-add_names_queue (g ∷ gs) (q, m) x = ground (
  arith,
  contains-add_names_queue gs (q, m) x,
  contains-add_names_queue gs (q ++ g ∷ [], g ∷ m) x,
  any-append (λ y. y == x) q (g ∷ []),
  eq_iff g x,
)

-- how many names of the list are still to be found
abbrev unseen : List Bytes → List Bytes → ℕ
unseen m us = length (keep (λ u. not (contains m u)) us)

unseen_le : (g : Bytes) (m us : List Bytes) → unseen (g ∷ m) us ≤ unseen m us
unseen_le g m [] = omega arith
unseen_le g m (u ∷ us) = ground (arith, unseen_le g m us)

unseen_lt :
    (g : Bytes) (m us : List Bytes)
    → contains us g ≡ true
    → contains m g ≡ false
    → unseen (g ∷ m) us + 1 ≤ unseen m us
unseen_lt g m [] h k = cc
unseen_lt g m (u ∷ us) h k =
    ground (arith, unseen_lt g m us, unseen_le g m us, eq_iff u g, eq_refl g)

add_names-unseen :
    (us gs : List Bytes) (w : Walk)
    → ((x : Bytes) → contains gs x ≡ true → contains us x ≡ true)
    → length (add_names gs w).0 + unseen (add_names gs w).1 us ≤ length w.0 + unseen w.1 us
unfolding add_names add_name
add_names-unseen us [] (q, m) h = omega arith
add_names-unseen us (g ∷ gs) (q, m) h =
    let rest : (x : Bytes) → contains gs x ≡ true → contains us x ≡ true =
      λ x e. h x (ground (arith)) in
    ground (
      arith,
      add_names-unseen us gs (q, m) rest,
      add_names-unseen us gs (q ++ g ∷ [], g ∷ m) rest,
      unseen_lt g m us (h g (ground (arith, eq_refl g))),
      length-append q (g ∷ []),
    )

contains-outers :
    (es : List (Bytes × List Bytes)) (o : Bytes)
    → contains (outers es) o ≡ any (λ e. contains e.1 o) es
unfolding outers
contains-outers [] o = refl
contains-outers ((g, os) ∷ es) o =
    ground (arith, contains-outers es o, any-append (λ x. x == o) os (outers es))

contains-outers-entries :
    (nests : Map (List Bytes)) (g o : Bytes)
    → contains (get_or nests g []) o ≡ true
    → contains (outers (entries nests)) o ≡ true
contains-outers-entries nests g o h = elim (Option-cases (get nests g)) [
  | inl e ↦ ground (arith, get_or_lem nests g [])
  | inr (os, e) ↦
      let here : contains os o ≡ true = ground (arith, get_or_lem nests g []) in
      contains-outers (entries nests) o
      ∙ any-entries_complete (λ j v. contains v o) nests g os e here
]

module _ (nests : Map (List Bytes)) (direct : List Bytes) where
  -- Of a state of the loop: what it has found is right, what waits is found, what is found and waits
  -- no more has its outer groups found, and what lists the actor is found.
  record Inv (w : Walk) : Type 0 where
    right : (x : Bytes) → contains w.1 x ≡ true → Reach nests direct x
    waiting : (x : Bytes) → contains w.0 x ≡ true → contains w.1 x ≡ true
    closed :
        (x o : Bytes)
        → contains w.1 x ≡ true
        → contains w.0 x ≡ false
        → contains (get_or nests x []) o ≡ true
        → contains w.1 o ≡ true
    covers : (x : Bytes) → contains direct x ≡ true → contains w.1 x ≡ true

  Inv-step :
      (g : Bytes) (q m : List Bytes) → Inv (g ∷ q, m) → Inv (add_names (get_or nests g []) (q, m))
  Inv-step g q m i =
      let os = get_or nests g [] in
      let found : contains m g ≡ true = i.waiting g (ground (arith, eq_refl g)) in
      record {
        right = λ x h. elim (Bool-cases (contains m x)) [
          | inl old ↦ i.right x old
          | inr new ↦ outward g x (i.right g found) (ground (arith, contains-add_names os (q, m) x))
        ];
        waiting = λ x h. ground (
          arith,
          contains-add_names os (q, m) x,
          contains-add_names_queue os (q, m) x,
          i.waiting x,
        );
        closed = λ x o a b c. ground (
          arith,
          contains-add_names os (q, m) x,
          contains-add_names os (q, m) o,
          contains-add_names_queue os (q, m) x,
          i.closed x o,
          eq_iff g x,
        );
        covers = λ x h. ground (arith, contains-add_names os (q, m) x, i.covers x);
      }

  Inv-start : Inv (add_names direct ([], []))
  Inv-start = record {
    right = λ x h. listed x (ground (arith, contains-add_names direct ([], []) x));
    waiting = λ x h.
        ground
          (arith, contains-add_names direct ([], []) x, contains-add_names_queue direct ([], []) x);
    closed = λ x o a b c.
        ground
          (arith, contains-add_names direct ([], []) x, contains-add_names_queue direct ([], []) x);
    covers = λ x h. ground (arith, contains-add_names direct ([], []) x);
  }

  Inv-complete :
      (m : List Bytes) (g : Bytes) → Inv ([], m) → Reach nests direct g → contains m g ≡ true
  Inv-complete m _ i (listed g h) = i.covers g h
  Inv-complete m _ i (outward g o r h) = i.closed g o (Inv-complete m g i r) refl h

  abbrev candidates : List Bytes
  candidates = direct ++ outers (entries nests)

  is_candidate :
      (g x : Bytes) → contains (get_or nests g []) x ≡ true → contains candidates x ≡ true
  is_candidate g x h = ground (
    arith,
    contains-outers-entries nests g x,
    any-append (λ y. y == x) direct (outers (entries nests)),
  )

  walk-Reach :
      (fuel : ℕ) (w : Walk)
      → Inv w
      → length w.0 + unseen w.1 candidates ≤ fuel
      → (ms : List Bytes) × (walk fuel nests w ≡ some ms)
        × ((g : Bytes) → (contains ms g ≡ true) ↔ Reach nests direct g)
  unfolding walk
  walk-Reach zero ([], m) i h = (m, refl, λ g. (i.right g, Inv-complete m g i))
  walk-Reach (suc fuel) ([], m) i h = (m, refl, λ g. (i.right g, Inv-complete m g i))
  walk-Reach zero (g ∷ q, m) i h = absurd (omega arith)
  walk-Reach (suc fuel) (g ∷ q, m) i h =
      walk-Reach fuel (add_names (get_or nests g []) (q, m)) (Inv-step g q m i)
        (omega (arith, add_names-unseen candidates (get_or nests g []) (q, m) (is_candidate g)))

  unseen_all : (us : List Bytes) → unseen [] us ≡ length us
  unseen_all [] = refl
  unseen_all (u ∷ us) = ground (arith, unseen_all us)

  -- The expansion of an actor's groups ends, and it finds exactly the groups that list the actor and,
  -- at any depth, the groups that list one of these, cycles included.
  pub membership-Reach :
      (ms : List Bytes) × (membership nests direct ≡ some ms)
      × ((g : Bytes) → (contains ms g ≡ true) ↔ Reach nests direct g)
  unfolding membership
  membership-Reach =
      walk-Reach (length direct + length (outers (entries nests))) (add_names direct ([], []))
        Inv-start
        (omega (
          arith,
          add_names-unseen candidates direct ([], [])
              (λ x h. ground (arith, any-append (λ y. y == x) direct (outers (entries nests)))),
          unseen_all candidates,
          length-append direct (outers (entries nests)),
        ))
