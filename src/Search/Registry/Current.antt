-- ===== src/Search/Registry/Current.antt =====
-- The registry of internal/api/searchindex.go keeps up with the store.
use cinc_server_ng.Prelude.{
  ◌≡◌, sym, ap, ◌∙◌, Bool, false, ◌&&◌, Option, none, some, List, [], ◌∷◌, ◌++◌, arith, Bytes, lit,
  ◌==◌, eq_iff, IsFree, has_prefix, get, set, delete, get-set, get-delete, entries, if◌then◌else◌,
  Option-cases, Bool-cases, inl, inr,
}
use cinc_server_ng.Prelude.Maps.Entries.{find_entry, find_entry-entries}
use cinc_server_ng.Prelude.Separated.{same_pair}
use cinc_server_ng.Store.Memory.{Memory, get_object}
use cinc_server_ng.Search.Json.{Members}
use cinc_server_ng.Search.Index.{CollIndex}
use cinc_server_ng.Search.Registry.{Registry, index_key, drop_keys, drop_org}
use cinc_server_ng.Search.Registry.Shows.{Shows, Shows-of_same}

-- Only the collection of nodes has its attributes merged.
abbrev pub merges : Bytes → Bool
merges coll = coll == lit "nodes"

get-drop_keys :
    (prefix : Bytes) (es : List (Bytes × CollIndex)) (r : Registry) (k : Bytes)
    → get (drop_keys prefix es r) k ≡ (
        if has_prefix k prefix
        then (elim (find_entry es k) [ none ↦ get r k | some v ↦ none ])
        else get r k)
unfolding drop_keys
get-drop_keys prefix [] r k = ground (arith)
get-drop_keys prefix ((j, v) ∷ es) r k = ground (
  arith,
  get-drop_keys prefix es r k,
  get-drop_keys prefix es (delete r j) k,
  get-delete r j k,
  eq_iff j k,
)

pub get-drop_org :
    (org : Bytes) (r : Registry) (k : Bytes)
    → get (drop_org org r) k ≡ (if has_prefix k (org ++ 0 ∷ []) then none else get r k)
unfolding drop_org
get-drop_org org r k =
    ground (arith, get-drop_keys (org ++ 0 ∷ []) (entries r) r k, find_entry-entries r k)

module _ (to_lower : Bytes → Bytes) (decode : Bytes → Option Members) where
  abbrev pub ShowsAt : Memory → Bytes → Bytes → CollIndex → Type 0
  ShowsAt m org coll = Shows to_lower decode (λ id. get_object m org coll id)

  -- Every index of an organisation whose name is free of the separator shows its collection.
  pub record IsCurrent (r : Registry) (m : Memory) : Type 0 where
    pub shows :
        (org coll : Bytes) (idx : CollIndex)
        → IsFree 0 org
        → get r (index_key org coll) ≡ some idx
        → ShowsAt m org coll idx × (idx.merge ≡ merges coll)

  pub IsCurrent-of_same :
      (r r' : Registry) (m m' : Memory)
      → IsCurrent r m
      → r' ≡ r
      → ((o c k : Bytes) → get_object m' o c k ≡ get_object m o c k)
      → IsCurrent r' m'
  IsCurrent-of_same r r' m m' i e f = record {
    shows = λ o c idx fo h.
        let (s, g) = i.shows o c idx fo (ap (λ x. get x (index_key o c)) (sym e) ∙ h) in
        (
          Shows-of_same to_lower decode (λ id. get_object m o c id) (λ id. get_object m' o c id) idx
              (λ id. f o c id) s,
          g,
        );
  }

  -- One index is brought up to date, if it is there; no other collection has changed.
  module _ (r : Registry) (m m' : Memory) (org coll : Bytes) (f : CollIndex → CollIndex)
      (follows : (c : CollIndex) → ShowsAt m org coll c → ShowsAt m' org coll (f c))
      (keeps : (c : CollIndex) → (f c).merge ≡ c.merge)
      (apart : (o c k : Bytes)
        → (org == o && coll == c) ≡ false
        → get_object m' o c k ≡ get_object m o c k)
      (free : IsFree 0 org) (i : IsCurrent r m) where
    abbrev pub updated : Registry
    updated = elim (get r (index_key org coll)) [
      | none ↦ r
      | some idx ↦ set r (index_key org coll) (f idx)
    ]

    same_key :
        (o c : Bytes) → IsFree 0 o → (index_key org coll == index_key o c) ≡ (org == o && coll == c)
    unfolding index_key
    same_key o c fo = same_pair org coll o c free fo

    other :
        (o c : Bytes) (idx : CollIndex)
        → (org == o && coll == c) ≡ false
        → IsFree 0 o
        → get r (index_key o c) ≡ some idx
        → ShowsAt m' o c idx × (idx.merge ≡ merges c)
    other o c idx n fo e =
        let (s, g) = i.shows o c idx fo e in
        (
          Shows-of_same to_lower decode (λ id. get_object m o c id) (λ id. get_object m' o c id) idx
              (λ id. apart o c id n) s,
          g,
        )

    this :
        (o c : Bytes) (old idx : CollIndex)
        → org ≡ o
        → coll ≡ c
        → f old ≡ idx
        → get r (index_key org coll) ≡ some old
        → ShowsAt m' o c idx × (idx.merge ≡ merges c)
    this o c old idx eo ec ei e =
        let (s, g) = i.shows org coll old free e in
        rw (← eo, ← ec, ← ei) (follows old s, keeps old ∙ g)

    pub updated-IsCurrent : IsCurrent updated m'
    updated-IsCurrent = record {
      shows = λ o c idx fo e. elim (Option-cases (get r (index_key org coll))) [
        | inl n ↦
            other o c idx
              (ground (arith, same_key o c fo, eq_iff (index_key org coll) (index_key o c))) fo
              (ground (arith))
        | inr (old, n) ↦ elim (Bool-cases (org == o && coll == c)) [
          | inl t ↦
              this o c old idx (ground (arith, eq_iff org o)) (ground (arith, eq_iff coll c))
                (ground
                  (arith, same_key o c fo, get-set r (index_key org coll) (index_key o c) (f old)))
                n
          | inr u ↦ other o c idx u fo (
              ground
                (arith, same_key o c fo, get-set r (index_key org coll) (index_key o c) (f old)))
        ]
      ];
    }
