-- ===== src/Tests.antt =====
-- The theorems at concrete inputs.
mod Wire
mod Keys
mod Stream
mod Graph
mod Report
mod Literals
mod Parsing
mod Resolving
mod Settings
