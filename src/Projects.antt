-- ===== src/Projects.antt =====
-- backend/app/services/projects and backend/app/services/project_workspace: the files, rows and
-- journals of imported projects, and the operations that must survive a crash.
pub mod Crash
pub mod Files
pub mod Deletion
mod Tests
