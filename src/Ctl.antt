-- ===== src/Ctl.antt =====
-- tools/virtusbctl/main.c: the command line tool. Print has the texts it writes, Parse the reading of
-- the command line, Run the commands on the library; Caps, Words, Laws, Sound and Safe hold the proofs.
pub mod Print
pub mod Parse
pub mod Run
pub mod Caps
pub mod Words
pub mod Laws
pub mod Sound
pub mod Safe
