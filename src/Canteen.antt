-- ===== src/Canteen.antt =====
-- The stock of canteen products: src/modules/canteen/canteen-stock.ts.
pub mod Stock
pub mod Conserved
pub mod Lines
mod Tests
