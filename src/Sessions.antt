-- ===== src/Sessions.antt =====
-- src/services/session_manager/: the sessions of the users, from their creation to their end.
pub mod Data
pub mod Processes
pub mod Lifecycle
pub mod Requests
pub mod Signals
pub mod Triple
pub mod Leaders
pub mod Stability
pub mod Balance
pub mod Payment
pub mod Ends
pub mod Creation
pub mod Account
pub mod History
pub mod Depth
pub mod Descent
pub mod Access
pub mod Greeter
mod Tests
