-- ===== src/Package.antt =====
-- Software packages: src/lib-co-repo/src.
pub mod Materials
pub mod Usecase
pub mod Preview
pub mod Parts
pub mod Outputs
pub mod Sorts
pub mod Validate
mod Examples
