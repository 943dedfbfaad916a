-- ===== src/TaggedPtr/Orders.antt =====
-- lockfree/tagged_ptr.cc: the library's memory orders and their translation to those of C++.
use jowi_asio.Base.{Bool, true, false, ◌≡◌, arith}

pub data MemoryOrder : Type 0 where
  relaxed sequential strict : MemoryOrder

-- std::memory_order
pub data StdOrder : Type 0 where
  relaxed consume acquire release acq_rel seq_cst : StdOrder

-- The orders of a compare-exchange, on success and on failure.
pub to_cas_order : MemoryOrder → StdOrder × StdOrder
to_cas_order MemoryOrder.relaxed = (StdOrder.relaxed, StdOrder.relaxed)
to_cas_order MemoryOrder.sequential = (StdOrder.seq_cst, StdOrder.seq_cst)
to_cas_order MemoryOrder.strict = (StdOrder.acq_rel, StdOrder.acquire)

pub to_store_order : MemoryOrder → StdOrder
to_store_order MemoryOrder.relaxed = StdOrder.relaxed
to_store_order MemoryOrder.sequential = StdOrder.seq_cst
to_store_order MemoryOrder.strict = StdOrder.release

pub to_load_order : MemoryOrder → StdOrder
to_load_order MemoryOrder.relaxed = StdOrder.relaxed
to_load_order MemoryOrder.sequential = StdOrder.seq_cst
to_load_order MemoryOrder.strict = StdOrder.acquire

-- The orders that the C++ standard admits for a load and for the failure of a compare-exchange.
abbrev pub admits_load : StdOrder → Bool
admits_load StdOrder.release = false
admits_load StdOrder.acq_rel = false
admits_load _ = true

-- The orders that it admits for a store.
abbrev pub admits_store : StdOrder → Bool
admits_store StdOrder.relaxed = true
admits_store StdOrder.release = true
admits_store StdOrder.seq_cst = true
admits_store _ = false

-- Whether an operation of that order takes part in synchronisation as the acquiring side.
abbrev pub acquires : StdOrder → Bool
acquires StdOrder.acquire = true
acquires StdOrder.acq_rel = true
acquires StdOrder.seq_cst = true
acquires _ = false

-- For every order of the library, the load order and the failure order of a compare-exchange are
-- ones that the standard admits for a load, the store order is one that it admits for a store, and
-- a load, a failed and a successful compare-exchange agree on whether they acquire.
pub orders_admitted :
    (m : MemoryOrder)
    → (admits_load (to_load_order m) ≡ true)
      × (admits_store (to_store_order m) ≡ true)
      × (admits_load (to_cas_order m).1 ≡ true)
      × (acquires (to_cas_order m).0 ≡ acquires (to_load_order m))
      × (acquires (to_cas_order m).1 ≡ acquires (to_load_order m))
unfolding to_cas_order to_store_order to_load_order
orders_admitted m = ground arith
