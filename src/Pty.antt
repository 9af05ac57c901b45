-- ===== src/Pty.antt =====
-- internal/pty: the pseudo-terminal of the child shell, on Linux and on Windows. What the system
-- calls answer is an argument; what is opened and closed is a list of uses of handles.
pub mod Linux
pub mod Windows
