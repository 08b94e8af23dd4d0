-- ===== src/Cli.antt =====
-- fsm-cli: the command-line client of the server.
pub mod Types
pub mod Client
pub mod Main
pub mod Connect
