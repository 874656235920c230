-- ===== src/Dedup.antt =====
-- yugo/dedup_store.py: the durable claim store of envelope ids, and the boot identity of
-- yugo/dedup_verification.py that fences its leases.
-- Times of the wall clock, the TTL and the lease are counted in microseconds (the resolution of
-- `datetime.timestamp()`), the monotonic clock in nanoseconds as the source reads it.
pub mod Table
pub mod Clock
pub mod Store
pub mod Find
pub mod Spec
pub mod Refine
pub mod Prune
pub mod Partial
pub mod Oldest
pub mod Swept
pub mod Ops
pub mod Run
pub mod Lease
pub mod Completed
pub mod Atomic
