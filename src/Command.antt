-- ===== src/Command.antt =====
-- command.c and command.h: the parser of commands in the redis protocol.
pub mod Types
pub mod Kinds
pub mod Keywords
pub mod Fsa
pub mod Items
pub mod Choices
pub mod Parse
pub mod Forward
pub mod Rounds
pub mod Halts
pub mod Run
pub mod Roundtrip
mod Tests
