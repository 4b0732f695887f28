-- ===== src/Io.antt =====
-- src/stomp_io.c: frames on a connection. `Io.Base` has the connection and the error variable,
-- `Io.Write` and `Io.Frame` the writer, `Io.Line`, `Io.Body` and `Io.Read` the reader.
pub mod Base
pub mod Write
pub mod Frame
pub mod Delivery
pub mod Rules
pub mod Input
pub mod Blocks
pub mod Line
pub mod Body
pub mod Read
pub mod Stream
