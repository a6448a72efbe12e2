-- ===== src/Authz/Documents/Typed.antt =====
-- What encoding/json makes of an ACL in the struct of internal/api/authzdoc.go, against the map.
use cinc_server_ng.Prelude.{
  ◌≡◌, refl, ap, Bool, true, false, not, ◌&&◌, ◌||◌, Option, none, some, List, [], ◌∷◌, any,
  is_some, arith, inl, inr, Option-cases, Bytes, lit, ◌==◌, eq_iff, contains, get, get-set,
  get-delete, get-empty,
}
use cinc_server_ng.Search.Json.{
  Json, null, bool, text, number, float, array, object, Items, no_items, item, Members, no_members,
  member, get_member,
}
use cinc_server_ng.Groups.Codec.{item_strings, json_strings}
use cinc_server_ng.Authz.Policy.{Ace, ace_allows}
use cinc_server_ng.Authz.Documents.{ReadAceDoc, allows, ace_of, acl_of}

-- An array into a []string: a null leaves the empty string, and no other element than a string fits.
unfoldable pub typed_items : Items → Option (List Bytes)
typed_items no_items = some []
typed_items (item (text s) xs) = elim (typed_items xs) [ none ↦ none | some ss ↦ some (s ∷ ss) ]
typed_items (item null xs) = elim (typed_items xs) [ none ↦ none | some ss ↦ some ([] ∷ ss) ]
typed_items (item _ xs) = none

-- A field of type []string, which stays nil for a null and for a member that is not there.
unfoldable pub typed_strings : Option Json → Option (List Bytes)
unfolding typed_items
typed_strings none = some []
typed_strings (some null) = some []
typed_strings (some (array xs)) = typed_items xs
typed_strings (some _) = none

-- A field of type aceDoc.
unfoldable pub typed_ace : Option Json → Option Ace
unfolding typed_strings
typed_ace none = some (record { actors = []; groups = [] })
typed_ace (some null) = some (record { actors = []; groups = [] })
typed_ace (some (object es)) = elim (typed_strings (get_member es (lit "actors"))) [
  | none ↦ none
  | some names ↦ elim (typed_strings (get_member es (lit "groups"))) [
    | none ↦ none
    | some gs ↦ some (record { actors = names; groups = gs })
  ]
]
typed_ace (some _) = none

-- A document into a readACEDoc.
unfoldable pub typed_doc : Members → Option ReadAceDoc
unfolding typed_ace
typed_doc ms = elim (typed_ace (get_member ms (lit "read"))) [
  | none ↦ none
  | some ace ↦ some (record { read = ace })
]

module _ (fold : Bytes → Bytes) where
  -- No name stands twice, and none is that of a field but for its case, which `fold` takes away.
  unfoldable pub is_exact : List Bytes → Members → Bool
  is_exact fields no_members = true
  is_exact fields (member k v ms) =
      not (any (λ f. fold k == fold f && not (k == f)) fields)
      && (not (is_some (get_member ms k)) && is_exact fields ms)

  unfoldable pub is_exact_entry : Option Json → Bool
  unfolding is_exact
  is_exact_entry (some (object es)) = is_exact (lit "actors" ∷ lit "groups" ∷ []) es
  is_exact_entry _ = true

  -- An ACL in which matching the names of fields whatever their case finds none but those.
  unfoldable pub is_plain : Members → Bool
  unfolding is_exact is_exact_entry
  is_plain ms = is_exact (lit "read" ∷ []) ms && is_exact_entry (get_member ms (lit "read"))

-- the read entry of a map, as it is decoded
get-acl_of :
    (ms : Members) (k : Bytes)
    → get (acl_of ms) k ≡ (elim (get_member ms k) [ none ↦ none | some v ↦ ace_of v ])
unfolding acl_of get_member
get-acl_of no_members k = get-empty {V = Ace} k
get-acl_of (member j v ms) k = elim (Option-cases (ace_of v)) [
  | inl e ↦ ground (arith, get-acl_of ms k, get-delete (acl_of ms) j k, eq_iff j k)
  | inr (ace, e) ↦ ground (arith, get-acl_of ms k, get-set (acl_of ms) j k ace, eq_iff j k)
]

module _ (p : Bytes → Bool) (no_empty : p [] ≡ false) where
  any-typed_items :
      (xs : Items) (ss : List Bytes) → typed_items xs ≡ some ss → any p (item_strings xs) ≡ any p ss
  unfolding typed_items item_strings
  any-typed_items no_items ss e = let none_there : ss ≡ [] = ground (arith) in rw none_there refl
  any-typed_items (item (text s) xs) ss e = elim (Option-cases (typed_items xs)) [
    | inl n ↦ absurd (ground (arith))
    | inr (ts, f) ↦
        let same : ss ≡ s ∷ ts = ground (arith) in
        rw same (ap (λ b. p s || b) (any-typed_items xs ts f))
  ]
  any-typed_items (item null xs) ss e = elim (Option-cases (typed_items xs)) [
    | inl n ↦ absurd (ground (arith))
    | inr (ts, f) ↦
        let same : ss ≡ [] ∷ ts = ground (arith) in rw (same, no_empty) (any-typed_items xs ts f)
  ]
  any-typed_items (item (bool b) xs) ss e = cc
  any-typed_items (item (number n) xs) ss e = cc
  any-typed_items (item (float n) xs) ss e = cc
  any-typed_items (item (array ys) xs) ss e = cc
  any-typed_items (item (object ms) xs) ss e = cc

  any-typed_strings :
      (v : Option Json) (ss : List Bytes)
      → typed_strings v ≡ some ss
      → any p (json_strings v) ≡ any p ss
  unfolding typed_strings json_strings
  any-typed_strings (some (array xs)) ss e = any-typed_items xs ss e
  any-typed_strings none ss e = let none_there : ss ≡ [] = ground (arith) in rw none_there refl
  any-typed_strings (some null) ss e =
      let none_there : ss ≡ [] = ground (arith) in rw none_there refl
  any-typed_strings (some (bool b)) ss e = cc
  any-typed_strings (some (text s)) ss e = cc
  any-typed_strings (some (number n)) ss e = cc
  any-typed_strings (some (float n)) ss e = cc
  any-typed_strings (some (object ms)) ss e = cc

module _ (actor : Bytes) (groups : List Bytes) (named : ([] == actor) ≡ false)
    (grouped : contains groups [] ≡ false) where
  abbrev decides : Option Json → Bool
  decides v = ace_allows (elim v [ none ↦ none | some j ↦ ace_of j ]) actor groups

  allows_nothing :
      (ace : Ace)
      → some (record { actors = []; groups = [] }) ≡ some ace
      → allows ace actor groups ≡ false
  unfolding allows
  allows_nothing ace e = ground (arith)

  -- a typed entry decides as the entry of the map
  allows-typed_ace :
      (v : Option Json) (ace : Ace) → typed_ace v ≡ some ace → allows ace actor groups ≡ decides v
  unfolding typed_ace ace_allows ace_of allows
  allows-typed_ace none ace e = allows_nothing ace e
  allows-typed_ace (some null) ace e = allows_nothing ace e
  allows-typed_ace (some (object es)) ace e =
      let entry_actors = get_member es (lit "actors") in
      let entry_groups = get_member es (lit "groups") in
      elim (Option-cases (typed_strings entry_actors)) [
        | inl n ↦ absurd (ground (arith))
        | inr (named_actors, f) ↦ elim (Option-cases (typed_strings entry_groups)) [
          | inl n ↦ absurd (ground (arith))
          | inr (named_groups, g) ↦ ground (
            arith,
            any-typed_strings (λ a. a == actor) named entry_actors named_actors f,
            any-typed_strings (λ x. contains groups x) grouped entry_groups named_groups g,
          )
        ]
      ]
  allows-typed_ace (some (bool b)) ace e = cc
  allows-typed_ace (some (text s)) ace e = cc
  allows-typed_ace (some (number n)) ace e = cc
  allows-typed_ace (some (float n)) ace e = cc
  allows-typed_ace (some (array xs)) ace e = cc

  -- What the struct says about reading an object is what the map says.
  pub allows-typed_doc :
      (ms : Members) (doc : ReadAceDoc)
      → typed_doc ms ≡ some doc
      → allows doc.read actor groups ≡ ace_allows (get (acl_of ms) (lit "read")) actor groups
  unfolding typed_doc
  allows-typed_doc ms doc e = elim (Option-cases (typed_ace (get_member ms (lit "read")))) [
    | inl n ↦ absurd (ground (arith))
    | inr (ace, f) ↦
        ground
          (arith, get-acl_of ms (lit "read"), allows-typed_ace (get_member ms (lit "read")) ace f)
  ]
