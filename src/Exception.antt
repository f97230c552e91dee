-- ===== src/Exception.antt =====
-- The class MachException of mac_ptrace/lldb/MachException.h and MachException.cpp: the data of a
-- caught exception and the handler that fills them in (`Data`), the names and the masks of the
-- exception types (`Names`), the exception ports that are saved and put back (`Ports`), and the
-- messages (`Message`).
pub mod Data
pub mod Names
pub mod Ports
pub mod Message
mod Tests
