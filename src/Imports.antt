-- ===== src/Imports.antt =====
-- The two ways to take a recipe from elsewhere: a compose file, and a repository.
pub mod Compose
pub mod GitHub
