-- ===== src/Master.antt =====
-- master/src: the scheduler of the Master, and its queries.
pub mod Datos
pub mod Rutas
pub mod Nombres
pub mod Mensajes
pub mod Desconexion
pub mod Alcance
pub mod Planificacion
pub mod Prioridades
pub mod Despacho
pub mod Ronda
pub mod Aging
pub mod Cola
mod Tests
