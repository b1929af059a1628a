-- ===== src/Child.antt =====
-- Child processes, from src/yc-child.c: the life of one child, its creation, and its container.
pub mod Defs
pub mod Measures
pub mod Events
pub mod Calls
pub mod Lifecycle
pub mod Ending
pub mod FdInit
pub mod Create
pub mod Ledgers
pub mod Setups
pub mod Numbers
pub mod Unwind
pub mod Distinct
pub mod Creation
pub mod Container
pub mod Slots
pub mod Crowd
pub mod Settled
pub mod Crew
pub mod Placed
