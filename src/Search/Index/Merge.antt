-- ===== src/Search/Index/Merge.antt =====
-- The operations of internal/api/searchindex.go and the index's kind.
use cinc_server_ng.Prelude.{◌≡◌, refl, ◌∙◌, List, [], ◌∷◌, Bytes, entries, get_or}
use cinc_server_ng.Search.Query.{Fields}
use cinc_server_ng.Search.Index.{
  CollIndex, IndexTerm, put, remove, put_fields, put_values, retract, retract_terms,
}

-- No operation changes whether the index merges.
merge-retract_terms :
    (id : Bytes) (ts : List IndexTerm) (c : CollIndex) → (retract_terms id ts c).merge ≡ c.merge
unfolding retract_terms
merge-retract_terms id [] c = refl
merge-retract_terms id (t ∷ ts) c = merge-retract_terms id ts _

merge-put_values :
    (id f : Bytes) (vs : List Bytes) (s : CollIndex × List IndexTerm)
    → (put_values id f vs s).0.merge ≡ s.0.merge
unfolding put_values
merge-put_values id f [] s = refl
merge-put_values id f (v ∷ vs) s = merge-put_values id f vs _

merge-put_fields :
    (id : Bytes) (fs : List (Bytes × List Bytes)) (s : CollIndex × List IndexTerm)
    → (put_fields id fs s).0.merge ≡ s.0.merge
unfolding put_fields
merge-put_fields id [] s = refl
merge-put_fields id ((f, vs) ∷ fs) s = merge-put_fields id fs _ ∙ merge-put_values id f vs _

merge-retract : (id : Bytes) (c : CollIndex) → (retract id c).merge ≡ c.merge
unfolding retract
merge-retract id c = merge-retract_terms id (get_or c.doc_terms id []) c

pub merge-remove : (id : Bytes) (c : CollIndex) → (remove id c).merge ≡ c.merge
unfolding remove
merge-remove id c = merge-retract id c

pub merge-put : (id : Bytes) (d : Fields) (c : CollIndex) → (put id d c).merge ≡ c.merge
unfolding put
merge-put id d c = merge-put_fields id (entries d) (retract id c, []) ∙ merge-retract id c
