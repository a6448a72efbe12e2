-- ===== src/Store/Memory/Listed.antt =====
-- The sorted lists of internal/store/memory.go have what was sorted.
use cinc_server_ng.Prelude.{
  ◌≡◌, refl, inner, is_some, ◌∙◌, true, ◌||◌, List, [], ◌∷◌, map, arith, any-map, any-entries-key,
  Bytes, ◌==◌, contains, entries,
}
use cinc_server_ng.Store.Memory.{
  Memory, keys, get_object, has_org, list_orgs, sort_strings, insert_sorted,
}

contains-insert_sorted :
    (s : Bytes) (ts : List Bytes) (k : Bytes)
    → contains (insert_sorted s ts) k ≡ (s == k || contains ts k)
unfolding insert_sorted
contains-insert_sorted s [] k = refl
contains-insert_sorted s (t ∷ ts) k = ground (arith, contains-insert_sorted s ts k)

pub contains-sort_strings :
    (ss : List Bytes) (k : Bytes) → contains (sort_strings ss) k ≡ contains ss k
unfolding sort_strings
contains-sort_strings [] k = refl
contains-sort_strings (s ∷ ss) k =
    ground (arith, contains-sort_strings ss k, contains-insert_sorted s (sort_strings ss) k)

-- ListOrgs has every organisation that HasOrg knows.
pub contains-list_orgs :
    (m : Memory) (org : Bytes) → has_org m org ≡ true → contains (list_orgs m) org ≡ true
unfolding list_orgs has_org
contains-list_orgs m org h =
    contains-sort_strings (map (λ e. e.0) (entries m.orgs)) org
    ∙ any-map (λ k. k == org) (λ e. e.0) (entries m.orgs)
    ∙ any-entries-key m.orgs org
    ∙ ground (arith)

-- Keys has the keys at which Get finds something.
pub contains-keys :
    (m : Memory) (org coll k : Bytes)
    → contains (keys m org coll) k ≡ is_some (get_object m org coll k)
unfolding keys get_object
contains-keys m org coll k =
    let rows = inner (inner m.data_of org) coll in
    contains-sort_strings (map (λ e. e.0) (entries rows)) k
    ∙ any-map (λ j. j == k) (λ e. e.0) (entries rows)
    ∙ any-entries-key rows k
