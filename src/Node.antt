-- ===== src/Node.antt =====
-- airstore/node: a storage node, its disk and its HTTP handlers.
pub mod Disk
pub mod Engine
pub mod Handlers
pub mod Agent
pub mod App
