-- ===== src/Commands.antt =====
-- The command handler: include/CommandHandler.h and src/CommandHandler.cpp.
pub mod State
pub mod Handle
pub mod Spec
pub mod Serves
pub mod Refine
mod Deleted
pub mod Reject
mod Tests
