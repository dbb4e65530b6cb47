-- ===== src/Tests.antt =====
-- Runs of the functions of this library on concrete boards.
mod Chip
mod Floats
mod Memory
mod Signal
mod Master
mod Slave
mod Tasks
mod Transform
mod Serial
mod Rounds
mod Replies
mod Start
mod Boot
mod Overlong
mod Residues
mod Fourier
mod Board
