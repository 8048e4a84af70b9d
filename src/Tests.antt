-- ===== src/Tests.antt =====
-- Runs of the models on concrete inputs, one module for each part of the program.
mod Delivery
mod Network
mod Game
mod World
pub mod Fixed
mod Threads
mod Served
mod Server
mod Client
