-- ===== src/Enroll.antt =====
-- cmd/pitviper-enroll/main.go: the listener that adds one public key to `authorized_keys`.
-- A text is the list of its runes. What the system calls answer stands in `Faults`.
pub mod Text
pub mod Keys
pub mod Service
pub mod Code
