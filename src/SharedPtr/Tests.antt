-- ===== src/SharedPtr/Tests.antt =====
-- lockfree/shared_ptr.cc: two AllocData, at 16 with two handles and at 32 with one.
use jowi_asio.Base.{
  ◌+◌, ◌≡◌, inr, Bool, true, false, List, [], ◌∷◌, some, ◌==◌, if◌then◌else◌, arith,
}
use jowi_asio.SharedPtr.{Heap, own, copy_assign}
use jowi_asio.SharedPtr.Assign.{last, copy_assign_lem}

abbrev tries : List Bool
tries = true ∷ false ∷ false ∷ []

abbrev two_allocs : Heap
two_allocs = record {
  data_of = λ a. a + 1000;
  rcount = λ a. if a == 16 then 2 else if a == 32 then 1 else 0;
  deleted = [];
}

-- The last handle on 32 becomes one on 16.
copy_assign_lem_example :
    (m' : Heap) × (copy_assign tries 32 16 two_allocs ≡ some (16, m'))
    × (m'.rcount 16 + own 16 32 ≡ 2 + own 16 16)
    × (m'.deleted ≡ (if last two_allocs 32 16 then 1032 ∷ [] else []))
copy_assign_lem_example =
    copy_assign_lem tries 32 16 16 two_allocs (omega arith) (inr (omega arith)) (inr (omega arith))
      (omega arith)
