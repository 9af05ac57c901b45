-- ===== src/Vterm.antt =====
-- internal/vterm: the VT100 screen state machine.
pub mod Cell
pub mod Screen
pub mod Scroll
pub mod Params
pub mod Sgr
pub mod Csi
pub mod Escape
pub mod Utf8
pub mod Write
pub mod Resize
pub mod View
pub mod Valid
