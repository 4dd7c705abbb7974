-- ===== src/Utils.antt =====
-- utils/src/utils: the protocol between the parts.
pub mod Protocolo
pub mod Nombre
pub mod Paquete
pub mod Envio
mod Tests
