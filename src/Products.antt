-- ===== src/Products.antt =====
-- src/products: the taxonomy, the owner's operations, images, and search filters.
pub mod Taxonomy
pub mod Pairs
pub mod Images
pub mod Catalog
pub mod Filters
