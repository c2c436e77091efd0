-- ===== src/Examples.antt =====
-- The theorems at concrete inputs, over a toy platform that meets the laws asked of the libraries.
mod Toy
mod Room
mod Words
mod Ciphers
mod Servers
mod Runs
mod Screens
mod Rooms
mod Twins
mod Keeper
mod Users
mod Sessions
mod Secrets
mod Talks
mod Meetings
