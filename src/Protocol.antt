-- ===== src/Protocol.antt =====
-- The host protocol's enumerations: src/states.h, src/commands.h and src/swap_errors.h.
pub mod States
pub mod Commands
pub mod Errors
