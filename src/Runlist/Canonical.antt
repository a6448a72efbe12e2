-- ===== src/Runlist/Canonical.antt =====
-- The canonical form of internal/runlist/runlist.go, and the test that spares the rewrite.
use cinc_server_ng.Prelude.{
  ◌≡◌, refl, sym, ap, ◌∙◌, Bool, true, false, some, List, [], ◌∷◌, arith, inl, inr, Bool-cases,
  Option-cases, Bytes, lit, ◌==◌, eq_iff,
}
use cinc_server_ng.Search.Json.{
  Json, null, bool, number, float, text, array, object, Items, no_items, item, Members, no_members,
  member, get_member, set_member,
}
use cinc_server_ng.Runlist.{
  normalize_items, strings_of, string_list, to_any, equal, list_changes, envs_change,
  env_lists_change, changes_in, needs_change, normalized, normalized_envs, rewrite_envs, update,
  rewrite, normalize,
}

equal_sound : (xs ys : List Bytes) → equal xs ys ≡ true → xs ≡ ys
unfolding equal
equal_sound [] [] h = refl
equal_sound [] (y ∷ ys) h = cc
equal_sound (x ∷ xs) [] h = cc
equal_sound (x ∷ xs) (y ∷ ys) h = ground (arith, eq_iff x y, equal_sound xs ys)

to_any-strings_of : (xs : Items) (ss : List Bytes) → strings_of xs ≡ some ss → to_any ss ≡ xs
unfolding strings_of to_any
to_any-strings_of no_items ss e = let none_there : ss ≡ [] = ground (arith) in rw none_there refl
to_any-strings_of (item (text s) xs) ss e = elim (Option-cases (strings_of xs)) [
  | inl n ↦ absurd (ground (arith))
  | inr (ts, f) ↦
      let same : ss ≡ s ∷ ts = ground (arith) in
      rw same (ap (λ ys. item (text s) ys) (to_any-strings_of xs ts f))
]
to_any-strings_of (item null xs) ss e = cc
to_any-strings_of (item (bool b) xs) ss e = cc
to_any-strings_of (item (number n) xs) ss e = cc
to_any-strings_of (item (float n) xs) ss e = cc
to_any-strings_of (item (array ys) xs) ss e = cc
to_any-strings_of (item (object ms) xs) ss e = cc

normalized_same : (v : Json) → list_changes v ≡ false → normalized v ≡ v
unfolding list_changes normalized string_list
normalized_same (array xs) h = elim (Option-cases (strings_of xs)) [
  | inl e ↦ ground (arith)
  | inr (items, e) ↦
      let same : normalize_items items ≡ items =
        equal_sound (normalize_items items) items (ground (arith)) in
      ground (arith, to_any-strings_of xs items e)
]
normalized_same null h = refl
normalized_same (bool b) h = refl
normalized_same (text s) h = refl
normalized_same (number n) h = refl
normalized_same (float n) h = refl
normalized_same (object ms) h = refl

normalized_envs_same : (ms : Members) → envs_change ms ≡ false → normalized_envs ms ≡ ms
unfolding envs_change normalized_envs
normalized_envs_same no_members h = refl
normalized_envs_same (member k v ms) h = ground (arith, normalized_same v, normalized_envs_same ms)

rewrite_envs_same : (v : Json) → env_lists_change v ≡ false → rewrite_envs v ≡ v
rewrite_envs_same (object ms) h = ap object (normalized_envs_same ms h)
rewrite_envs_same (array xs) h = refl
rewrite_envs_same null h = refl
rewrite_envs_same (bool b) h = refl
rewrite_envs_same (text s) h = refl
rewrite_envs_same (number n) h = refl
rewrite_envs_same (float n) h = refl

set_member_same :
    (doc : Members) (k : Bytes) (v : Json) → get_member doc k ≡ some v → set_member doc k v ≡ doc
unfolding get_member set_member
set_member_same no_members k v e = cc
set_member_same (member j w ms) k v e = ground (arith, set_member_same ms k v)

names_differ : (lit "run_list" == lit "env_run_lists") ≡ false
unfolding lit ◌==◌
names_differ = refl

-- The first member of the name was looked at, if the flag was down.
changes_in-run_list :
    (doc : Members) (role se : Bool) (v : Json)
    → changes_in role false se doc ≡ false
    → get_member doc (lit "run_list") ≡ some v
    → list_changes v ≡ false
unfolding changes_in get_member
changes_in-run_list no_members role se v h e = cc
changes_in-run_list (member k w ms) role se v h e =
    ground (arith, changes_in-run_list ms role se v, changes_in-run_list ms role true v)

changes_in-envs :
    (doc : Members) (sl : Bool) (v : Json)
    → changes_in true sl false doc ≡ false
    → get_member doc (lit "env_run_lists") ≡ some v
    → env_lists_change v ≡ false
unfolding changes_in get_member
changes_in-envs no_members sl v h e = cc
changes_in-envs (member k w ms) sl v h e = ground (
  arith,
  changes_in-envs ms sl v,
  changes_in-envs ms true v,
  names_differ,
  eq_iff k (lit "run_list"),
  eq_iff k (lit "env_run_lists"),
  eq_iff (lit "run_list") (lit "env_run_lists"),
)

update_same :
    (k : Bytes) (f : Json → Json) (doc : Members)
    → ((v : Json) → get_member doc k ≡ some v → f v ≡ v)
    → update k f doc ≡ doc
update_same k f doc h = elim (Option-cases (get_member doc k)) [
  | inl n ↦ ground (arith)
  | inr (v, e) ↦ ground (arith, h v e, set_member_same doc k v e)
]

rewrite_same :
    (doc : Members) (role : Bool) → needs_change doc role ≡ false → rewrite doc role ≡ doc
unfolding needs_change rewrite
rewrite_same doc role h =
    let listed : update (lit "run_list") normalized doc ≡ doc =
      update_same (lit "run_list") normalized doc
        (λ v e. normalized_same v (changes_in-run_list doc role false v h e)) in
    elim (Bool-cases role) [
      | inl t ↦
          rw (t, listed)
            (update_same (lit "env_run_lists") rewrite_envs doc (λ v e.
              rewrite_envs_same v (
                changes_in-envs doc false v (ap (λ r. changes_in r false false doc) (sym t) ∙ h)
                  e)))
      | inr f ↦ rw f listed
    ]

-- The test that spares re-encoding a document never skips one whose run lists are not canonical: for a
-- node and for a role, normalizing is the rewrite of the run lists, whatever members the document has,
-- repeated ones and ones of another shape included.
pub normalize-rewrite : (doc : Members) (role : Bool) → normalize doc role ≡ rewrite doc role
unfolding normalize
normalize-rewrite doc role = elim (Bool-cases (needs_change doc role)) [
  | inl t ↦ rw t refl
  | inr f ↦ rw f (sym (rewrite_same doc role f))
]
