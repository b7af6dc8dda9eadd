-- ===== src/Growth.antt =====
-- backend/internal/modules/growth: the rules of progression in Growth/Rules.antt, an event's effect on a
-- profile in Growth/Progress.antt, and the shields and boosts of infra/postgres_repository.go in
-- Growth/Profiles.antt.
pub mod Rules
pub mod Progress
pub mod Awards
pub mod Profiles
pub mod Uncommitted
mod Tests
