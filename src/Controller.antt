-- ===== src/Controller.antt =====
-- The controller (pymesh/controller and pymesh/storage): its tables, and the actions that read and
-- change them.
pub mod Models
pub mod Action
pub mod Auth
pub mod Nodes
pub mod Peers
pub mod Rules
pub mod Routes
pub mod Subnet
pub mod Registry
pub mod Views
pub mod Requests
mod Tests
