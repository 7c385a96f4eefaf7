-- ===== src/Program.antt =====
-- Program offers: ecommerce/programs/conditions.py, with programs/utils.py.
mod Rows
pub mod Condition
pub mod Covered
mod Tests
unfoldable pub use Rows.*
