-- ===== src/Review/Tools.antt =====
-- The context tools of src/review/ai_tools.rs, by which the model reads the checkout: the paths they
-- admit, the walk over the files, the tools and the limits of their results. The file system, the JSON
-- library and the glob matcher are parameters.
pub mod Paths
pub mod Walk
pub mod CacheKeys
pub mod Calls
pub mod Limits
pub mod Searches
pub mod Truncation
pub mod Bounds
