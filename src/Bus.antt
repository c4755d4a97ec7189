-- ===== src/Bus.antt =====
-- The D-Bus wrapper (src/dbus): object paths and interface names, and the names that services make
-- elements of object paths of; subscriptions of signals; the objects of a connection.
pub mod ObjectPath
pub mod Pieces
pub mod Encoding
pub mod Subscriptions
pub mod Rules
pub mod Variant
pub mod Objects
pub mod Dispatch
pub mod Prop
mod Tests
