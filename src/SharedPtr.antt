-- ===== src/SharedPtr.antt =====
-- lockfree/shared_ptr.cc: `AllocData` and `SharedPtr`, and `std::atomic<SharedPtr>`. A handle, also a
-- std::unique_ptr<AllocData>, is the address of its AllocData, 0 for an empty one; the handles that a
-- function takes are different objects.
pub mod Count
pub mod Assign
pub mod Atomic
mod Tests
use jowi_asio.Base.{
  ℕ, ◌+◌, ◌-◌, ◌%◌, ◌^◌, Bool, true, false, ◌&&◌, List, [], ◌∷◌, map, Option, none, some,
}
use jowi_asio.Base.{◌==◌, if◌then◌else◌}
use jowi_asio.Atomic.{compare_exchange_weak, Attempt, nat_eq}

-- The AllocData at each address, and the data pointers that have been handed to their deleters.
pub record Heap : Type 0 where
  pub data_of : ℕ → ℕ
  pub rcount : ℕ → ℕ
  pub deleted : List ℕ

-- A map from addresses, changed at one of them.
abbrev pub update : (ℕ → ℕ) → ℕ → ℕ → ℕ → ℕ
update f p v = λ a. if a == p then v else f a

-- Whether a pointer points to a.
abbrev pub own : ℕ → ℕ → ℕ
own a x = if x == a then 1 else 0

-- uint64_t arithmetic on a count.
abbrev pub one_more : ℕ → ℕ
one_more c = (c + 1) % 2 ^ 64

abbrev pub one_less : ℕ → ℕ
one_less c = (c + (2 ^ 64 - 1)) % 2 ^ 64

-- The loop of `Deallocator`, over its attempts: `cur_rcount` and `des_rcount` at its end.
pub lower_loop : List Attempt → ℕ → ℕ → Option (ℕ × ℕ)
lower_loop [] cur des = none
lower_loop (a ∷ rest) cur des =
    let r = compare_exchange_weak a.spurious a.seen cur des in
    let again = lower_loop rest r.expected (one_less r.expected) in
    if r.success then some (r.expected, r.cell) else again

pub lower : List Attempt → Option (ℕ × ℕ)
lower attempts = lower_loop attempts 1 0

-- The test after the loop.
pub deletes : ℕ × ℕ → Bool
deletes r = r.0 == 1 && r.1 == 0

-- What one thread finds in the count of an AllocData that no other thread changes.
abbrev pub alone : List Bool → ℕ → List Attempt
alone flags c = map (λ s. record { seen = c; spurious = s }) flags

-- `Deallocator::operator()`; `none` if the attempts are not enough.
pub deallocate : List Bool → ℕ → Heap → Option Heap
deallocate flags p m = if p == 0 then some m else elim (lower (alone flags (m.rcount p))) [
  | none ↦ none
  | some r ↦ some (record m {
    rcount = update m.rcount p r.1;
    deleted = if deletes r then m.data_of p ∷ m.deleted else m.deleted;
  })
]

-- `AllocData::allocate`; `at` is the address that `new` gives.
pub allocate : ℕ → ℕ → Heap → ℕ × Heap
allocate at ptr m =
    (at, record m { data_of = update m.data_of at ptr; rcount = update m.rcount at 1 })

pub copy : ℕ → Heap → ℕ × Heap
copy p m =
    if p == 0 then (0, m) else (p, record m { rcount = update m.rcount p (one_more (m.rcount p)) })

pub steal : ℕ → ℕ
steal p = p

-- The copy is returned, and the stolen handle is released.
pub steal_and_leak : ℕ → Heap → ℕ × Heap
steal_and_leak p m = copy (steal p) m

pub dealloc : List Bool → ℕ → Heap → Option Heap
dealloc flags p m = deallocate flags (steal p) m

-- SharedPtr(T *, deleter)
pub new_ptr : ℕ → ℕ → Heap → ℕ × Heap
new_ptr at ptr m = if ptr == 0 then (0, m) else allocate at ptr m

-- SharedPtr(nullptr)
pub null_ptr : ℕ
null_ptr = 0

-- `make_shared`: `ptr` is the address of the new object.
pub make_shared : ℕ → ℕ → Heap → ℕ × Heap
make_shared at ptr m = new_ptr at ptr m

-- SharedPtr(const SharedPtr &), and its assignment, which drops what the handle held.
pub copy_construct : ℕ → Heap → ℕ × Heap
copy_construct o m = copy o m

pub copy_assign : List Bool → ℕ → ℕ → Heap → Option (ℕ × Heap)
copy_assign flags this o m =
    let (p, m') = copy o m in
    elim (deallocate flags this m') [ none ↦ none | some m'' ↦ some (p, m'') ]

-- SharedPtr(SharedPtr &&), and its assignment: the handle, what is left of the other one.
pub move_construct : ℕ → ℕ × ℕ
move_construct o = (o, 0)

pub move_assign : List Bool → ℕ → ℕ → Heap → Option ((ℕ × ℕ) × Heap)
move_assign flags this o m = elim (deallocate flags this m) [
  | none ↦ none
  | some m' ↦ some (move_construct o, m')
]

pub is_set : ℕ → Bool
is_set p = if p == 0 then false else true

pub get : ℕ → Heap → ℕ
get p m = if p == 0 then 0 else m.data_of p

-- `operator->`, and `operator*`, which is undefined on an empty handle.
pub arrow : ℕ → Heap → ℕ
arrow p m = get p m

pub deref : ℕ → Heap → Option ℕ
deref p m = if get p m == 0 then none else some (get p m)

pub reset : List Bool → ℕ → Heap → Option (ℕ × Heap)
reset flags this m = elim (deallocate flags this m) [ none ↦ none | some m' ↦ some (0, m') ]

-- The handle left; nothing is counted down.
pub release : ℕ → ℕ
release this = 0

-- `none`: the call on an empty handle is undefined.
pub ref_count : ℕ → Heap → Option ℕ
ref_count p m = if p == 0 then none else some (m.rcount p)

pub eq : ℕ → ℕ → Bool
eq l r = l == r
