-- ===== src/Lib.antt =====
-- PITVIPER, a terminal emulator: its screen, its window and its connections.
--
-- The program (cmd/pitviper) reads bytes from a shell, an SSH session or a MUD server, feeds them to
-- a VT100 screen (internal/vterm) by `Screen.Write`, and draws the grid that `Screen.Snapshot`
-- returns with bitmap or TTF glyphs (internal/font). The screen owns a ring of saved lines
-- (internal/vterm/scrollback.go), which `scrollUp` fills and the view shows.
--
-- - Slice: Go slices as lists; indexing, slicing, `copy` and the loops that fill a range.
-- - Scrollback: internal/vterm/scrollback.go. `Scrollback` is `scrollbackBuf`; Valid has its
--   invariant, History its abstract view.
-- - Vterm: internal/vterm/vterm.go. `Screen` has the fields of the Go struct less the mutex (Screen,
--   Cell); Scroll has `scrollUp` and `scrollDown`; Params `parseNums` and the readings of parameters;
--   Sgr `handleSGR`; Csi `handleCSI`, one function per case (Cursor, Erase, Lines, Modes); Escape
--   `handleEsc` and `handleOSC`; Utf8 the decoder that `Write` calls; Write `putChar` and `Write`;
--   Resize `Resize`; View `Snapshot` and the view offset. Valid has the invariant of a screen.
--   Csi/Frame, Escape/Safe and Write/Escapes follow whole streams of bytes, View/Rows and View/History
--   the view of saved lines, Resize/Copied and Resize/Shrunk a new size.
-- - Window: cmd/pitviper/main.go. Reading has the goroutine that reads the connection, writes to the
--   screen and logs in to a MUD. App has the event loop over the variables that it changes, with
--   Events, which chooses what an event does, Keys `handleScrollKey`, `writeKey` and `pasteText`, and
--   Selection the mouse selection, `pixelToCell` and `selectedText`. Frame has `renderFrame` as the
--   list of what it draws, with the colours of Colors; Atlas `buildGlyphAtlas`; Textures the caches of
--   `emojiTexture` and `shinyTexture`; Connect the choice of the connection by the flags, over
--   Sshkey, Sshconn, Mudconn and Pty. The codes of SDL's keys, the steps of the zoom and what the
--   compiled scroll mod asks for are parameters (`Host`).
-- - Font: internal/font. font.go's bitmaps, and `IsEmoji` of emoji.go; Surfaces has the caches of
--   emoji.go and shiny.go. The ASCII bitmaps and the fonts of SDL2_ttf are parameters.
-- - Gfdapi: internal/gfdapi/gfdapi.go, the requests, the poll and its loop; the network and the JSON
--   decoding are a parameter (`Net`).
-- - Pty: internal/pty. Linux and Windows have `Open` and `Close` as the list of the handles that they
--   open and close (Base/Handles), and Windows the choice of the shell; the answers of the system are
--   parameters.
-- - Sshconn: internal/sshconn/sshconn.go. `dial` gives the list of what `Dial` opens and closes and its
--   result, from the settings and the answers of the calls (`World`).
-- - Mudconn: internal/mudconn/mudconn.go, `Dial` and `Close`.
-- - Sshkey: internal/sshkey/sshkey.go and, from cmd/pitviper/main.go, `runSSHEnroll`. The functions of
--   golang.org/x/crypto/ssh are the interface `Ssh`.
-- - Enroll: cmd/pitviper-enroll/main.go. Text has the calls of package strings, Keys
--   `appendAuthorizedKey` with its failures (`Faults`), Service the handler, Code `randomCode`.
-- - Examples: a small screen, and the theorems at concrete inputs.
--
-- A Go `int` is a word of 64 bits, the number below 2 ^ 64 with the same bits (Base/Word), with
-- wrap-around and signed comparison written out; a rune is a number and a byte a number below 256. A
-- panic is `none`. A loop `for i := a; i < b; i++` runs `rounds a b` times, by structural recursion,
-- so no fuel is used. The mutex is not modelled, since each exported method holds it from start to
-- end: an interleaving of threads is a sequence of whole calls.
--
-- The theorems on screens are about at most 2 ^ 30 rows and columns (`max_side`), which keeps
-- every index far from overflow, and parameters below 2 ^ 62 where an overflow would matter.
--
-- A text of the enrolment is the list of its runes; a request is handled from start to end before the
-- next one. What a system call or a library answers is an argument, error or not.
--
-- Not modelled: in cmd/pitviper the start-up of SDL and the parsing of the flags, the zoom, which is a
-- float, the status bar, the district pane and the splash screen of the GFD mode, and with
-- them its colours, which replace the default ones; HTTP and JSON, in internal/gfdapi and
-- cmd/pitviper-enroll; the C of internal/scrollmod; and the locks
-- of internal/gfdapi and internal/font.
pub mod Base
pub mod Slice
pub mod Scrollback
pub mod Vterm
pub mod Window
pub mod Font
pub mod Enroll
pub mod Sshconn
pub mod Sshkey
pub mod Pty
pub mod Gfdapi
pub mod Mudconn
pub mod Examples
