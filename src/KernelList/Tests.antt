-- ===== src/KernelList/Tests.antt =====
-- lib/kernel/list.c on a list of the elements 10 and 11 between the sentinels 1 and 2.
use ee468_pintos_project.Prelude.{
  ◌≡◌, refl, ℕ, [], ◌∷◌, ◌++◌, ok, arith, ltb, ◌==◌, if◌then◌else◌, List,
}
use ee468_pintos_project.KernelList.{
  Links, KList, list_init, list_remove, list_size, list_min, list_insert_ordered,
}
use ee468_pintos_project.KernelList.Chain.{IsList, SameOutside}
use ee468_pintos_project.KernelList.Insert.{Inserted, list_init-IsList}
use ee468_pintos_project.KernelList.Remove.{Removed, remove-IsList}
use ee468_pintos_project.KernelList.Walk.{
  list_size_lem, Least, list_min-Least, Place, Sorted, insert_ordered-Place, Transitive,
  Irreflexive,
}

abbrev ends : KList
ends = record { head = 1; tail = 2 }

abbrev two : Links
two = record {
  next = λ a. if a == 1 then 10 else if a == 10 then 11 else if a == 11 then 2 else 0;
  prev = λ a. if a == 2 then 11 else if a == 11 then 10 else if a == 10 then 1 else 0;
}

two-IsList : IsList two ends (10 ∷ 11 ∷ [])
two-IsList = record {
  chain = (refl, refl, (refl, refl, (refl, refl)));
  head_prev = refl;
  tail_next = refl;
  apart = (refl, (refl, (refl, (refl, tt))));
  real = refl;
}

ltb-Transitive : Transitive ltb
ltb-Transitive a b c h k = ground arith

ltb-Irreflexive : Irreflexive ltb
ltb-Irreflexive a = ground arith

list_init-IsList_example :
    IsList (list_init two ends) ends [] × SameOutside (1 ∷ 2 ∷ []) two (list_init two ends)
list_init-IsList_example = list_init-IsList two ends (omega arith) (omega arith) (omega arith)

remove-IsList_example : Removed two ends (11 ∷ []) 11 (list_remove two 10)
remove-IsList_example = remove-IsList two ends [] (11 ∷ []) 10 two-IsList

list_size_lem_example : list_size 3 two ends ≡ ok 2
list_size_lem_example = list_size_lem two ends (10 ∷ 11 ∷ []) 3 two-IsList (omega arith)

list_min-Least_example : (m : ℕ) × (list_min ltb 2 two ends ≡ ok m) × Least ltb m (10 ∷ 11 ∷ [])
list_min-Least_example =
    (list_min-Least ltb two ends ltb-Transitive ltb-Irreflexive 2).1 10 (11 ∷ []) two-IsList
      (omega arith)

insert_ordered-Place_example :
    (xs ys : List ℕ) × (10 ∷ 11 ∷ [] ≡ xs ++ ys)
    × Place ltb 12 xs ys
    × (Sorted ltb (10 ∷ 11 ∷ []) → Sorted ltb (xs ++ 12 ∷ ys))
    × Inserted two ends (xs ++ 12 ∷ ys) (list_insert_ordered ltb 3 two ends 12)
insert_ordered-Place_example =
    insert_ordered-Place ltb two ends (10 ∷ 11 ∷ []) 12 3 ltb-Transitive ltb-Irreflexive two-IsList
      (omega arith) refl (omega arith)
