-- ===== src/Relay.antt =====
-- internal/shared/streamrelay/framed.go: the framed relay of a byte stream.
pub mod Frame
pub mod Writer
pub mod Pump
pub mod Streams
pub mod Loop
pub mod Transparent
pub mod Cut
