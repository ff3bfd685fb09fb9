-- ===== src/Palloc.antt =====
-- threads/palloc.c, the page allocator: its state and functions, and what is proved of them.
pub mod State
pub mod Search
pub mod Alloc
pub mod Setup
pub mod Placement
pub mod Policies
pub mod Holes
pub mod BestHole
pub mod BestFit
pub mod Calls
pub mod Get
pub mod Free
pub mod Buddy
pub mod Init
mod Tests
