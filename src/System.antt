-- ===== src/System.antt =====
-- The whole program: cmd/main.go, with the two servers and the publisher that it starts.
pub mod Views
pub mod Http
pub mod Rpc
pub mod Publisher
pub mod Steps
pub mod Boot
pub mod Safe
pub mod Active
pub mod Agreement
