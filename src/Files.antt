-- ===== src/Files.antt =====
-- yugo/filesystem_tools.py: the file tools of the workspace.
pub mod Path
pub mod Safe
pub mod Workspace
pub mod Whole
pub mod Listing
