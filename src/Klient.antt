-- ===== src/Klient.antt =====
-- crates/simon-harness/src/client_protocol.rs: the protocol between client and coordinator.
pub mod Podpis
pub mod Zlecenie
pub mod Wyscig
pub mod Authorisation
pub mod SingleUse
pub mod Race
pub mod Orders
pub mod Toy
mod Tests
