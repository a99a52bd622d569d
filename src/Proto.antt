-- ===== src/Proto.antt =====
-- internal/proto: the commands that clients send, the frames they are sent, and the codecs.
pub mod Command
pub mod Frame
pub mod Codec
mod Tests
