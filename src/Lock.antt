-- ===== src/Lock.antt =====
-- The locks of the crate: clients of one or two events each. Models src/lock/.
pub mod Wait
pub mod Turn
pub mod System
pub mod Single
pub mod Invariant
pub mod Wakeup
pub mod Handover
pub mod Pointers
pub mod PointerTurns
pub mod PointerRuns
pub mod PointerLocks
mod PointerExamples
pub mod Mutex
pub mod Semaphore
pub mod Exclusion
pub mod Permits
pub mod Barrier
pub mod Rendezvous
pub mod Rounds
pub mod Departures
pub mod OnceCell
pub mod OnceUse
pub mod OnceSole
pub mod OnceAwake
pub mod OnceAttended
pub mod OnceServed
pub mod OnceReady
pub mod OnceHeard
pub mod OnceSet
mod Examples
mod RwExamples
mod BarrierExamples
mod OnceExamples
pub mod RwLock
pub mod RwUse
pub mod RwExclusion
pub mod RwRelease
