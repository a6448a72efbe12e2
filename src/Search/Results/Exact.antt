-- ===== src/Search/Results/Exact.antt =====
-- Which matches internal/api/search.go finds.
use cinc_server_ng.Prelude.{
  ℕ, ◌≡◌, refl, inl, inr, Bool-cases, sym, ap, ◌∙◌, Bool, true, false, ◌*◌, ◌&&◌, Option, none,
  some, List, [], ◌∷◌, ◌++◌, arith, Bytes, ◌==◌, eq_iff, contains, entries, inner, keep, any,
  append_assoc, append-nil, ltb, leb, length, if◌then◌else◌,
}
use cinc_server_ng.Prelude.Maps.Entries.{find_entry, IsUnique, find_entry-entries, entries-IsUnique}
use cinc_server_ng.Store.Memory.{less, get_object, range, range_loop}
use cinc_server_ng.Store.Facade.{Store, get_value, range_store}
use cinc_server_ng.Search.Results.{
  Match, sort_matches, insert_match, append_match, view_matches, fetch_matches, collect_all,
}
use cinc_server_ng.Search.Sets.{DocIds}

less_irrefl : (s : Bytes) → less s s ≡ false
unfolding less
less_irrefl [] = refl
less_irrefl (c ∷ s) = ground (arith, less_irrefl s)

find_entry-insert_match :
    (id raw : Bytes) (ms : List Match) (k : Bytes)
    → find_entry (insert_match (id, raw) ms) k ≡ (if id == k then some raw else find_entry ms k)
unfolding insert_match
find_entry-insert_match id raw [] k = refl
find_entry-insert_match id raw ((j, v) ∷ ms) k =
    ground (arith, find_entry-insert_match id raw ms k, eq_iff j k, eq_iff id k, less_irrefl k)

find_entry-sort_matches :
    (ms : List Match) (k : Bytes) → find_entry (sort_matches ms) k ≡ find_entry ms k
unfolding sort_matches
find_entry-sort_matches [] k = refl
find_entry-sort_matches ((id, raw) ∷ ms) k =
    find_entry-insert_match id raw (sort_matches ms) k
    ∙ ground (arith, find_entry-sort_matches ms k)

module _ (test : Bytes → Bytes → Bool) where
  range_loop-keep :
      (es acc : List Match)
      → range_loop (append_match test) es acc ≡ acc ++ keep (λ e. test e.0 e.1) es
  unfolding range_loop append_match
  range_loop-keep [] acc = sym (append-nil acc)
  range_loop-keep ((k, v) ∷ es) acc = elim (Bool-cases (test k v)) [
    | inl t ↦ rw t (
        range_loop-keep es (acc ++ (k, v) ∷ [])
        ∙ append_assoc acc ((k, v) ∷ []) (keep (λ e. test e.0 e.1) es))
    | inr f ↦ rw f (range_loop-keep es acc)
  ]

  find_entry-keep-none :
      (es : List Match) (k : Bytes)
      → any (λ e. e.0 == k) es ≡ false
      → find_entry (keep (λ e. test e.0 e.1) es) k ≡ none
  find_entry-keep-none [] k u = refl
  find_entry-keep-none ((j, v) ∷ es) k u = ground (arith, find_entry-keep-none es k)

  -- the entry of a key among those that pass a test
  find_entry-keep :
      (es : List Match) (k : Bytes)
      → IsUnique es
      → find_entry (keep (λ e. test e.0 e.1) es) k
        ≡ (elim (find_entry es k) [ none ↦ none | some v ↦ if test k v then some v else none ])
  find_entry-keep [] k u = refl
  find_entry-keep ((j, v) ∷ es) k (fresh, u) =
      ground (arith, find_entry-keep es k u, find_entry-keep-none es k, eq_iff j k)

module _ {W : Type 0} (org coll : Bytes) (s : Store W) where
  abbrev stored : Bytes → Option Bytes
  stored id = get_object s.backend org coll id

  -- what a scan with a test finds
  pub find_entry-scan :
      (test : Bytes → Bytes → Bool) (k : Bytes)
      → find_entry (sort_matches (range_store org coll (append_match test) [] s).0) k
        ≡ (elim (stored k) [ none ↦ none | some v ↦ if test k v then some v else none ])
  unfolding range_store range get_object
  find_entry-scan test k =
      let rows = inner (inner s.backend.data_of org) coll in
      find_entry-sort_matches (range_loop (append_match test) (entries rows) []) k
      ∙ ap (λ ms. find_entry ms k) (range_loop-keep test (entries rows) [])
      ∙ find_entry-keep test (entries rows) k (entries-IsUnique rows)
      ∙ ap (λ o. elim o [ none ↦ none | some v ↦ if test k v then some v else none ])
          (find_entry-entries rows k)

  -- Whatever is stored is a match of the scan for everything.
  pub find_entry-collect_all : (k : Bytes) → find_entry (collect_all org coll s).0 k ≡ stored k
  unfolding collect_all
  find_entry-collect_all k = find_entry-scan (λ id raw. true) k ∙ ground (arith)

find_entry-view_matches :
    {W : Type 0} (org coll : Bytes) (ids : DocIds) (s : Store W) (k : Bytes)
    → find_entry (view_matches org coll ids s).0 k
      ≡ (if contains ids k then get_object s.backend org coll k else none)
unfolding view_matches get_value
find_entry-view_matches org coll [] s k = refl
find_entry-view_matches org coll (id ∷ ids) s k =
    ground (arith, find_entry-view_matches org coll ids (get_value org coll id s).1 k, eq_iff id k)

module _ {W : Type 0} (org coll : Bytes) (ids : DocIds) (indexed : ℕ) (s : Store W) where
  -- The matched documents are those ids that are stored, with their bytes, whether the whole
  -- collection is read or each id on its own.
  pub find_entry-fetch_matches :
      (k : Bytes)
      → find_entry (fetch_matches org coll ids indexed s).0 k
        ≡ (if contains ids k then get_object s.backend org coll k else none)
  unfolding fetch_matches
  find_entry-fetch_matches k = elim (Bool-cases (ltb 0 indexed && leb indexed (length ids * 4))) [
    | inl t ↦ rw t (find_entry-scan org coll s (λ id raw. contains ids id) k ∙ ground (arith))
    | inr f ↦ rw f (
        find_entry-sort_matches (view_matches org coll ids s).0 k
        ∙ find_entry-view_matches org coll ids s k)
  ]
