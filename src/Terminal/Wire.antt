-- ===== src/Terminal/Wire.antt =====
-- What `Feed` of internal/termstate forwards to the clients: Reading and Sequences say that what the
-- parser holds stays through the commands, Held what it holds, Steps and Bytes what a byte does, and
-- Forwarded what many do.
pub mod Reading
pub mod Sequences
pub mod Held
pub mod Steps
pub mod Bytes
pub mod Forwarded
