-- ===== src/Worker.antt =====
-- worker/src: the internal memory of a Worker, and how it reads the lines of a script.
pub mod Memoria
pub mod Paginas
pub mod Instrucciones
pub mod Bucle
mod Tests
