-- ===== src/Command.antt =====
-- cmd/gfr/main.go and cmd/gfr-sim/main.go: what the commands do between their flags and the parts of
-- the program.
pub mod Setup
pub mod Output
pub mod Agree
pub mod Scorecard
pub mod Rows
pub mod Run
pub mod Screen
