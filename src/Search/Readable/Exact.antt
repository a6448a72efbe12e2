-- ===== src/Search/Readable/Exact.antt =====
-- The filter of internal/api/search.go is the check that a direct read goes through.
use cinc_server_ng.Prelude.{
  ◌≡◌, append_assoc, refl, sym, ap, ◌∙◌, Bool, true, false, Option, none, some, List, [], ◌∷◌, ◌++◌,
  keep, any, arith, inl, inr, Bool-cases, Option-cases, Bytes, lit, ◌==◌, eq_iff, contains,
  cut_prefix, Map, empty_map, get, get-set, get-empty, entries, inner, Result, ok, if◌then◌else◌,
}
use cinc_server_ng.Prelude.Maps.Entries.{find_entry, IsUnique, find_entry-entries, entries-IsUnique}
use cinc_server_ng.Store.Memory.{Memory, get_object, range, range_loop}
use cinc_server_ng.Authz.Policy.{Ace, Acl, default_acl, fallback_acl, ace_allows}
use cinc_server_ng.Search.Json.{Members}
use cinc_server_ng.Groups.Codec.{Codec}
use cinc_server_ng.Authz.Documents.{ReadAceDoc, decode_read_ace, allows, acl_of, decode_acl}
use cinc_server_ng.Authz.Documents.Typed.{is_plain, typed_doc, allows-typed_doc}
use cinc_server_ng.Authz.Enforce.{Actor, load_acl, acl_key}
use cinc_server_ng.Authz.Enforce.Sound.{allowed_with-ace_allows}
use cinc_server_ng.Search.Results.{Match, SearchIndex, resolve_index}
use cinc_server_ng.Store.Facade.{Store}
use cinc_server_ng.Search.Readable.{
  verdict, read_ace, stored_reads, by_stored, search_read_filter, keep_allowed, filter_readable,
}

cut_prefix-append : (p s : Bytes) → cut_prefix (p ++ s) p ≡ some s
unfolding cut_prefix
cut_prefix-append [] s = refl
cut_prefix-append (c ∷ p) s = ground (arith, cut_prefix-append p s)

-- the name behind the prefix is the one whose key this is
cut_prefix-eq :
    (key p name : Bytes)
    → (elim (cut_prefix key p) [ none ↦ false | some n ↦ n == name ]) ≡ (key == p ++ name)
unfolding cut_prefix ◌==◌
cut_prefix-eq key [] name = refl
cut_prefix-eq [] (c ∷ p) name = refl
cut_prefix-eq (d ∷ key) (c ∷ p) name = ground (arith, cut_prefix-eq key p name)

module _ (decode : Bytes → Option Acl) (unmarshal_read : Bytes → Option ReadAceDoc)
    (groups_of : Bytes → Bytes → Result Bytes (List Bytes)) where
  module _ (prefix actor : Bytes) (member : List Bytes) where
    abbrev read : Bytes → Bytes → Map Bool → Bool × Map Bool
    read = read_ace decode unmarshal_read groups_of prefix actor member

    abbrev says : Bytes → Option Bool → Option Bool
    says raw before = elim (verdict decode unmarshal_read groups_of actor member raw) [
      | none ↦ before
      | some b ↦ some b
    ]

    module _ (name : Bytes) where
      range_loop-read :
          (k raw : Bytes) (es : List (Bytes × Bytes)) (acc : Map Bool)
          → range_loop read ((k, raw) ∷ es) acc ≡ range_loop read es (read k raw acc).1
      unfolding range_loop read_ace
      range_loop-read k raw es acc = ground (arith)

      get-read :
          (k raw : Bytes) (acc : Map Bool)
          → get (read k raw acc).1 name
            ≡ (if k == prefix ++ name then says raw (get acc name) else get acc name)
      unfolding read_ace
      get-read k raw acc = elim (Option-cases (cut_prefix k prefix)) [
        | inl e ↦ ground (arith, cut_prefix-eq k prefix name)
        | inr (n, e) ↦
            elim (Option-cases (verdict decode unmarshal_read groups_of actor member raw)) [
              | inl v ↦ ground (arith)
              | inr (b, v) ↦ ground (arith, cut_prefix-eq k prefix name, get-set acc n name b)
            ]
      ]

      get-range_loop_other :
          (es : List (Bytes × Bytes)) (acc : Map Bool)
          → any (λ e. e.0 == prefix ++ name) es ≡ false
          → get (range_loop read es acc) name ≡ get acc name
      unfolding range_loop
      get-range_loop_other [] acc h = refl
      get-range_loop_other ((k, raw) ∷ es) acc h =
          ap (λ r. get r name) (range_loop-read k raw es acc)
          ∙ get-range_loop_other es (read k raw acc).1 (ground (arith))
          ∙ ground (arith, get-read k raw acc)

      -- what the scan leaves at a name, over what was there before
      get-range_loop :
          (es : List (Bytes × Bytes)) (acc : Map Bool)
          → IsUnique es
          → get (range_loop read es acc) name ≡ (elim (find_entry es (prefix ++ name)) [
            | none ↦ get acc name
            | some raw ↦ says raw (get acc name)
          ])
      unfolding range_loop
      get-range_loop [] acc u = refl
      get-range_loop ((k, raw) ∷ es) acc (fresh, u) = elim (Bool-cases (k == prefix ++ name)) [
        | inl here ↦
            ap (λ r. get r name) (range_loop-read k raw es acc)
            ∙ get-range_loop_other es (read k raw acc).1 (
                let same : k ≡ prefix ++ name = ground (arith, eq_iff k (prefix ++ name)) in
                rw (← same) fresh)
            ∙ ground (arith, get-read k raw acc)
        | inr there ↦
            ap (λ r. get r name) (range_loop-read k raw es acc)
            ∙ get-range_loop es (read k raw acc).1 u
            ∙ ground (arith, get-read k raw acc)
      ]

  module _ (m : Memory) (org : Bytes) (actor : Actor) (member : List Bytes)
      (agree : (key raw : Bytes) (ace : Ace)
        → get_object m org (lit "acls") key ≡ some raw
        → decode_read_ace unmarshal_read raw ≡ some ace
        → (acl : Acl) × (decode raw ≡ some acl)
          × (allows ace actor.name member
              ≡ ace_allows (get acl (lit "read")) actor.name member)) where
    abbrev pub may_read : Bytes → Bytes → Bool
    may_read typ name =
        ace_allows (get (load_acl decode groups_of m org typ name) (lit "read")) actor.name member

    by_stored_exact :
        (typ id : Bytes)
        → fallback_acl typ id ≡ default_acl
        → by_stored decode unmarshal_read groups_of m org typ actor.name member id ≡ may_read typ id
    unfolding by_stored stored_reads range load_acl get_object acl_key verdict
    by_stored_exact typ id plain =
        let rows = inner (inner m.data_of org) (lit "acls") in
        let looped =
          get-range_loop (typ ++ lit "/") actor.name member id (entries rows) empty_map
            (entries-IsUnique rows) in
        let found = find_entry-entries rows ((typ ++ lit "/") ++ id) in
        let path = ap (λ k. get rows k) (append_assoc typ (lit "/") id) in
        elim (Option-cases (get rows (typ ++ (lit "/" ++ id)))) [
          | inl e ↦ ground (arith, looped, found, path, get-empty {V = Bool} id)
          | inr (raw, e) ↦ elim (Option-cases (decode_read_ace unmarshal_read raw)) [
            | inl d ↦ ground (arith, looped, found, path, get-empty {V = Bool} id)
            | inr (ace, d) ↦
                let (acl, whole, entry) = agree (typ ++ (lit "/" ++ id)) raw ace e d in
                ground (arith, looped, found, path, get-empty {V = Bool} id)
          ]
        ]

    keep_allowed_exact :
        (typ : Bytes) (es : List Match)
        → groups_of org actor.name ≡ ok member
        → keep_allowed decode unmarshal_read groups_of m org actor typ es
          ≡ ok (keep (λ e. may_read typ e.0) es)
    unfolding keep_allowed
    keep_allowed_exact typ [] h = refl
    keep_allowed_exact typ (e ∷ es) h = ground (
      arith,
      allowed_with-ace_allows decode groups_of m org actor typ e.0 (lit "read") member h,
      keep_allowed_exact typ es h,
    )

    keep_same : (b : Bool) (es : List Match) → keep (λ e. b) es ≡ (if b then es else [])
    keep_same true [] = refl
    keep_same true (e ∷ es) = ap (λ xs. e ∷ xs) (keep_same true es)
    keep_same false [] = refl
    keep_same false (e ∷ es) = keep_same false es

    keep-congr :
        (p q : Match → Bool) (es : List Match) → ((e : Match) → p e ≡ q e) → keep p es ≡ keep q es
    keep-congr p q [] h = refl
    keep-congr p q (e ∷ es) h = ground (arith, h e, keep-congr p q es h)

    -- the object whose ACL governs a match
    abbrev pub governing : SearchIndex → Bytes → Bytes
    governing idx id = if idx.acl_object == [] then id else idx.acl_object

    filter_readable_own :
        (idx : SearchIndex) (es : List Match)
        → actor.is_global_admin ≡ false
        → groups_of org actor.name ≡ ok member
        → ((id : Bytes) → fallback_acl idx.acl_type id ≡ default_acl)
        → filter_readable decode unmarshal_read groups_of m true (some actor) org idx es
          ≡ ok (keep (λ e. may_read idx.acl_type (governing idx e.0)) es)
    unfolding filter_readable search_read_filter
    filter_readable_own idx [] n g f = ground (arith)
    filter_readable_own idx (e ∷ es) n g f = elim (Bool-cases (idx.acl_object == [])) [
      | inl own ↦ ground (
        arith,
        keep_allowed_exact idx.acl_type (e ∷ es) g,
        keep-congr
            (λ x.
              by_stored decode unmarshal_read groups_of m org idx.acl_type actor.name member x.0)
            (λ x. may_read idx.acl_type x.0) (e ∷ es)
            (λ x. by_stored_exact idx.acl_type x.0 (f x.0)),
      )
      | inr bag ↦ ground (
        arith,
        allowed_with-ace_allows decode groups_of m org actor idx.acl_type idx.acl_object
            (lit "read") member g,
        keep_same (may_read idx.acl_type idx.acl_object) (e ∷ es),
        keep-congr (λ x. may_read idx.acl_type (governing idx x.0))
            (λ x. may_read idx.acl_type idx.acl_object) (e ∷ es) (λ x. ground (arith)),
      )
    ]

kinds_fallback :
    (id : Bytes)
    → (fallback_acl (lit "node" ++ lit "s") id ≡ default_acl)
      × (fallback_acl (lit "role" ++ lit "s") id ≡ default_acl)
      × (fallback_acl (lit "client" ++ lit "s") id ≡ default_acl)
      × (fallback_acl (lit "environment" ++ lit "s") id ≡ default_acl)
      × (fallback_acl (lit "data") id ≡ default_acl)
unfolding fallback_acl lit ◌==◌
kinds_fallback id = (refl, refl, refl, refl, refl)

abbrev kind : Option SearchIndex → Bytes
kind none = lit "data"
kind (some idx) = idx.acl_type

fallback_acl-kind :
    {W : Type 0} (org name : Bytes) (s : Store W) (id : Bytes)
    → fallback_acl (kind (resolve_index org name s).0) id ≡ default_acl
unfolding resolve_index
fallback_acl-kind org name s id = ground (
  arith,
  kinds_fallback id,
  eq_iff name (lit "node"),
  eq_iff name (lit "role"),
  eq_iff name (lit "client"),
  eq_iff name (lit "environment"),
)

resolve_index-fallback :
    {W : Type 0} (org name : Bytes) (s : Store W) (idx : SearchIndex) (id : Bytes)
    → (resolve_index org name s).0 ≡ some idx
    → fallback_acl idx.acl_type id ≡ default_acl
resolve_index-fallback org name s idx id e =
    ap (λ o. fallback_acl (kind o) id) (sym e) ∙ fallback_acl-kind org name s id

module _ (json : Codec) (unmarshal_read : Bytes → Option ReadAceDoc) (fold : Bytes → Bytes)
    (law : (ms found : Members)
      → is_plain fold ms ≡ true
      → json.decode (json.encode ms) ≡ ok found
      → unmarshal_read (json.encode ms) ≡ typed_doc found) where
  -- where the read entry alone decodes, the whole ACL does, and they decide alike
  decode_read_ace-decode_acl :
      (ms found : Members) (raw actor : Bytes) (groups : List Bytes) (ace : Ace)
      → ([] == actor) ≡ false
      → contains groups [] ≡ false
      → is_plain fold ms ≡ true
      → json.encode ms ≡ raw
      → json.decode raw ≡ ok found
      → decode_read_ace unmarshal_read raw ≡ some ace
      → (acl : Acl) × (decode_acl json raw ≡ some acl)
        × (allows ace actor groups ≡ ace_allows (get acl (lit "read")) actor groups)
  unfolding decode_read_ace decode_acl
  decode_read_ace-decode_acl ms found raw actor groups ace named grouped plain written reads e =
      let typed : unmarshal_read raw ≡ typed_doc found =
        ap unmarshal_read (sym written) ∙ law ms found plain (ap json.decode written ∙ reads) in
      elim (Option-cases (typed_doc found)) [
        | inl n ↦ absurd (ground (arith))
        | inr (doc, f) ↦ (
          acl_of found,
          ground (arith),
          ground (arith, allows-typed_doc actor groups named grouped found doc f),
        )
      ]

-- With ACLs enforced, an actor who is no superuser gets from a search of any index exactly the matches
-- whose ACL, the stored one or the default, lets him read, and that of the bag for a data bag's items:
-- for few matches, checked one by one, and for many, by one scan of the stored ACLs that decodes their
-- read entries into a struct. The actor's groups resolve, and neither he nor one of them has an empty
-- name. Each ACL stored is what the codec writes for some document and reads again, in which no name is
-- repeated or is that of a field of the struct but for its case; on what is written for such a
-- document, encoding/json fills the struct by the names of its fields.
pub filter_readable_exact :
    {W : Type 0} (json : Codec) (unmarshal_read : Bytes → Option ReadAceDoc) (fold : Bytes → Bytes)
    (groups_of : Bytes → Bytes → Result Bytes (List Bytes)) (s : Store W) (org name : Bytes)
    (actor : Actor) (groups : List Bytes) (idx : SearchIndex) (es : List Match)
    → ((ms found : Members)
        → is_plain fold ms ≡ true
        → json.decode (json.encode ms) ≡ ok found
        → unmarshal_read (json.encode ms) ≡ typed_doc found)
    → ((key raw : Bytes)
        → get_object s.backend org (lit "acls") key ≡ some raw
        → (ms : Members) × (found : Members) × (is_plain fold ms ≡ true)
          × (json.encode ms ≡ raw)
          × (json.decode raw ≡ ok found))
    → ([] == actor.name) ≡ false
    → contains groups [] ≡ false
    → (resolve_index org name s).0 ≡ some idx
    → actor.is_global_admin ≡ false
    → groups_of org actor.name ≡ ok groups
    → filter_readable
        (decode_acl json)
        unmarshal_read
        groups_of
        s.backend
        true
        (some actor)
        org
        idx
        es
      ≡ ok (
          keep
            (λ e.
              ace_allows
                (get
                  (load_acl
                    (decode_acl json)
                    groups_of
                    s.backend
                    org
                    idx.acl_type
                    (if idx.acl_object == [] then e.0 else idx.acl_object))
                  (lit "read"))
                actor.name
                groups)
            es)
filter_readable_exact json unmarshal_read fold groups_of s org name actor groups idx es law stored
      named grouped e n g =
    filter_readable_own (decode_acl json) unmarshal_read groups_of s.backend org actor groups
      (λ key raw ace at_key typed.
        let (ms, found, plain, written, reads) = stored key raw at_key in
        decode_read_ace-decode_acl json unmarshal_read fold law ms found raw actor.name groups ace
          named grouped plain written reads typed)
      idx es n g (λ id. resolve_index-fallback org name s idx id e)
