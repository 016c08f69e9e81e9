-- ===== src/Tests.antt =====
-- The theorems at concrete inputs, and runs of the definitions.
mod Bencode
mod Choker
mod Session
mod Ban
mod Tracker
mod Dial
mod Sizes
mod Exported
mod Client
mod Dispatch
mod Wire
mod Piece
mod Pieces
mod Conn
mod Storage
mod Files
