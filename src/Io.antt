-- ===== src/Io.antt =====
-- bytehub_io: the copy between streams.
pub mod Obfs
pub mod Stream
pub mod Copy
pub mod Peek
mod Memory
pub mod Statistic
