-- ===== src/Cli.antt =====
-- cli/src: the shell. A text is the list of its characters, without the end mark.
pub mod Tokens
pub mod Paths
pub mod Normal
pub mod Again
pub mod Editor
pub mod Packing
