-- ===== src/Storage.antt =====
-- storage/src: the state of Storage, its operations on File:Tags and what they keep.
pub mod Nombres
pub mod Datos
pub mod Operaciones
pub mod Bloques
pub mod Atencion
pub mod Contadores
pub mod Crear
pub mod Inicio
pub mod Reinicio
pub mod Tamanio
mod Tests
