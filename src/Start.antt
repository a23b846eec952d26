-- ===== src/Start.antt =====
-- The start of the program (cmd/nekoq-bootstrap/main.go).
pub mod Boot
pub mod Rules
pub mod Serving
mod Tests
