-- ===== src/Offer.antt =====
-- Offers: ecommerce/extensions/offer.
mod Rows
pub mod Applicable
pub mod Unvisited
pub mod Applicator
pub mod Priority
pub mod Range
pub mod Satisfied
mod Tests
unfoldable pub use Rows.*
