-- ===== src/Util.antt =====
-- cirrinad/util/util.go, a module for each family of functions.
pub mod Json
pub mod Mac
pub mod Name
pub mod Port
pub mod Size
