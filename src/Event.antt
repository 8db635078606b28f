-- ===== src/Event.antt =====
-- event.rs: an event, its listeners in an intrusive doubly linked list, and its notifications.
pub mod World
pub mod Notification
pub mod Inner
pub mod Listener
pub mod Returns
pub mod Chain
pub mod Linked
pub mod Relink
pub mod Insert
pub mod Remove
pub mod Rep
pub mod Deliver
pub mod Notify
pub mod Unlink
pub mod Dropping
pub mod Polling
pub mod Freeing
pub mod Handles
pub mod Conversions
pub mod Program
pub mod Simulation
pub mod Refinement
mod Examples
pub mod Counters
