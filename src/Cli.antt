-- ===== src/Cli.antt =====
-- src/regtable_cli.h and src/regtable_cli.c: the serial command line.
pub mod Output
pub mod Split
pub mod Commands
pub mod Identity
pub mod Process
pub mod Feed
mod Examples
