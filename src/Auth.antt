-- ===== src/Auth.antt =====
-- Who may use a session (src/main.rs): `Mode` the configuration, `Frame` the hello frame, `Replay` the
-- cache of ticket ids, `Ticket` the verification of a relay ticket.
pub mod Mode
pub mod Frame
pub mod Replay
pub mod Ticket
