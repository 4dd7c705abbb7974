-- ===== src/Sistema.antt =====
-- The parts put together: a Worker over Storage, and what a Worker sends as the Master reads it.
pub mod Mensajes
pub mod Lectura
mod Tests
