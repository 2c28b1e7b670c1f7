-- ===== src/Runs.antt =====
-- domain/models.py, infrastructure/repositories.py, infrastructure/runtime.py and
-- application/run_service.py: runs that are submitted, executed in tasks of their own and queried;
-- the routes of api/app.py over them.
pub mod Models
pub mod Runner
pub mod Service
pub mod Api
pub mod Plane
mod Tests
