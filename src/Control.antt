-- ===== src/Control.antt =====
-- agent/control.py: RunController, shared by the terminal UI, the graph worker and the tool
-- threads. Every method holds one lock, so a method is one step on the controller's state.
pub mod State
pub mod Runs
pub mod Streams
pub mod Tools
pub mod Messages
mod Frame
pub mod Sorting
pub mod Steps
pub mod Events
pub mod Arrival
pub mod References
pub mod Handover
pub mod Stopping
pub mod Queue
mod Begin
pub mod Cancelling
