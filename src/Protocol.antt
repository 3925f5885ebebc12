-- ===== src/Protocol.antt =====
-- src/protocol/control_protocol.h and control_protocol.cpp: the frames of the control stream.
pub mod Bytes
pub mod Frame
pub mod Open
pub mod Hello
pub mod Speed
pub mod Address
