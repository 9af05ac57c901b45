-- ===== src/Window.antt =====
-- cmd/pitviper/main.go: what the window does with colours, keys, the mouse and its size. The calls
-- of SDL are not here: an event comes as the values that the code reads from it.
pub mod Reading
pub mod Frame
pub mod Textures
pub mod Atlas
pub mod App
pub mod Connect
pub mod Colors
pub mod Keys
pub mod Selection
pub mod Events
