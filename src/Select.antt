-- ===== src/Select.antt =====
-- lib/config/src/select_parser.rs: the expressions of a load test's configuration.
pub mod Json
pub mod Expression
pub mod Precedence
pub mod Paths
pub mod Templates
pub mod Rows
pub mod Specials
mod Tests
