-- ===== src/Tests/Llist.antt =====
-- A list of the values 10 and 20 at the addresses 1 and 2.
use saphire.Prelude.{
  ℕ, suc, ◌≡◌, refl, true, false, none, some, [], ◌∷◌, ◌++◌, ◌==◌, if◌then◌else◌, length,
}
use saphire.Clib.{ok}
use saphire.Xdebug.Llist.{Heap, Llist, insert_next, remove, empty}
use saphire.Xdebug.Llist.Chains.{Elements, Spares, IsList}
use saphire.Xdebug.Llist.Insert.{Inserted, insert_next-IsList}
use saphire.Xdebug.Llist.Remove.{remove-IsList}
use saphire.Xdebug.Llist.Empty.{empty-IsList}

abbrev heap : Heap ℕ
heap a =
    if a == 1
    then some (record { ptr = 10; prev = none; next = some 2 })
    else if a == 2
    then some (record { ptr = 20; prev = some 1; next = none })
    else none

abbrev two : Llist
two = record { head = some 1; tail = some 2; dtor = true; size = 2 }

abbrev elements : Elements ℕ
elements = (1, 10) ∷ (2, 20) ∷ []

two-IsList : IsList heap two elements
two-IsList = record {
  chain = (refl, (refl, tt));
  apart = ((refl, tt), (tt, tt));
  head = refl;
  tail = refl;
  size = refl;
}

abbrev no_list : Llist
no_list = record { head = none; tail = none; dtor = false; size = 0 }

no_list-IsList : IsList heap no_list []
no_list-IsList = record { chain = tt; apart = tt; head = refl; tail = refl; size = refl }

insert_next-IsList_example :
    Inserted heap two ([] ++ (1, 10) ∷ []) 3 30 ((2, 20) ∷ []) (insert_next 3 two (some 1) 30 heap)
    × Inserted heap two ([] ++ (1, 10) ∷ (2, 20) ∷ []) 3 30 [] (insert_next 3 two none 30 heap)
    × Inserted heap no_list [] 3 30 [] (insert_next 3 no_list none 30 heap)
insert_next-IsList_example =
    insert_next-IsList heap two no_list [] 1 10 ((2, 20) ∷ []) 3 30 none two-IsList
      (refl, (refl, tt)) no_list-IsList

remove-IsList_example :
    (l' : Llist) × (h' : Heap ℕ) × (remove two (some 1) heap ≡ ok (10 ∷ [], l', h'))
    × IsList h' l' ([] ++ (2, 20) ∷ [])
    × (h' 1 ≡ none)
    × (l'.dtor ≡ two.dtor)
    × ((a : ℕ) → Spares a ([] ++ elements) → h' a ≡ heap a)
remove-IsList_example = remove-IsList heap two 1 10 ((2, 20) ∷ []) [] two-IsList

empty-IsList_example :
    (l' : Llist) × (h' : Heap ℕ) × (empty (suc (length elements)) two heap
      ≡ ok (20 ∷ 10 ∷ [], l', h'))
    × IsList h' l' []
empty-IsList_example = empty-IsList two heap elements two-IsList
