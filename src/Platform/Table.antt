-- ===== src/Platform/Table.antt =====
-- Tables as lists of entries, for the platform that runs.
use libstomp.Prelude.{
  ◌≡◌, refl, sym, ap, true, Option, none, some, List, [], ◌∷◌, ◌++◌, Text, same_text, same_text→eq,
  if◌then◌else◌, arith,
}
use libstomp.Platform.Laws.{first, find}

abbrev pub Table : Type 0
Table = List (Text × Text)

unfoldable pub remove : Text → Table → Table
remove k [] = []
remove k ((j, v) ∷ t) = let rest = remove k t in if same_text j k then rest else (j, v) ∷ rest

unfoldable pub insert : Table → Text → Option Text → Table
unfolding remove
insert t k none = remove k t
insert t k (some v) = remove k t ++ (k, v) ∷ []

unfoldable pub overlay : Table → Table → Table
unfolding insert
overlay [] base = base
overlay ((k, v) ∷ over) base = overlay over (insert base k (some v))

same_text-same : (i j k : Text) → same_text i k ≡ true → same_text i j ≡ same_text k j
same_text-same i j k h = ap (λ t. same_text t j) (same_text→eq i k h)

same_text-end : (i j k : Text) → same_text k j ≡ true → same_text i j ≡ same_text i k
same_text-end i j k h = ap (same_text i) (sym (same_text→eq k j h))

find-remove :
    (k j : Text) (t : Table) → find j (remove k t) ≡ (if same_text k j then none else find j t)
unfolding remove
find-remove k j [] = ground arith
find-remove k j ((i, v) ∷ t) =
    ground (arith, find-remove k j t, same_text-same i j k, same_text-end i j k)

find-snoc :
    (j k v : Text) (t : Table)
    → find j (t ++ (k, v) ∷ []) ≡ (if same_text k j then some v else find j t)
find-snoc j k v [] = ground arith
find-snoc j k v ((i, w) ∷ t) = ground (arith, find-snoc j k v t)

pub find-insert :
    (t : Table) (k j : Text) (v : Option Text)
    → find j (insert t k v) ≡ (if same_text k j then v else find j t)
unfolding insert
find-insert t k j none = find-remove k j t
find-insert t k j (some v) = ground (arith, find-snoc j k v (remove k t), find-remove k j t)

pub find-overlay :
    (over base : Table) (k : Text) → find k (overlay over base) ≡ first (find k over) (find k base)
unfolding overlay
find-overlay [] base k = refl
find-overlay ((j, v) ∷ over) base k =
    ground (arith, find-overlay over (insert base j (some v)) k, find-insert base j k (some v))
