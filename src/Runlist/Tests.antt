-- ===== src/Runlist/Tests.antt =====
-- Run lists of internal/runlist on small inputs, and the theorems at them.
use cinc_server_ng.Prelude.{
  ◌≡◌, refl, any, map, List, [], ◌∷◌, Bytes, lit, ◌==◌, contains, true, has_prefix,
}
use cinc_server_ng.Search.Json.{
  text, array, no_items, item, Members, no_members, member, get_member,
}
use cinc_server_ng.Runlist.{qualify, normalize_items, normalize, rewrite, needs_change}
use cinc_server_ng.Runlist.Canonical.{normalize-rewrite}
use cinc_server_ng.Runlist.Distinct.{firsts, IsDistinct, normalize_items_exact}

abbrev names : List Bytes
names = lit "web" ∷ lit "role[db]" ∷ lit "recipe[web]" ∷ lit "recipe[db]" ∷ []

items_test : normalize_items names ≡ lit "recipe[web]" ∷ lit "role[db]" ∷ lit "recipe[db]" ∷ []
unfolding normalize_items lit has_prefix ◌==◌
items_test = refl

normalize_items_exact_example :
    (normalize_items names ≡ firsts (map qualify names))
    × IsDistinct (normalize_items names)
    × ((x : Bytes) → contains (normalize_items names) x ≡ any (λ i. qualify i == x) names)
    × (normalize_items (normalize_items names) ≡ normalize_items names)
normalize_items_exact_example = normalize_items_exact names

abbrev node : Members
node =
    member (lit "name") (text (lit "n1"))
      (member (lit "run_list") (array (item (text (lit "web")) no_items)) no_members)

node_test :
    (needs_change node true ≡ true)
    × (normalize node true
        ≡ member
            (lit "name")
            (text (lit "n1"))
            (member (lit "run_list") (array (item (text (lit "recipe[web]")) no_items)) no_members))
unfolding needs_change normalize lit has_prefix ◌==◌ get_member
node_test = (refl, refl)

normalize-rewrite_example : normalize node true ≡ rewrite node true
normalize-rewrite_example = normalize-rewrite node true
