-- ===== src/Examples.antt =====
-- Tests of the models, and for each property an input at which its conditions hold.
mod Node
mod Messages
mod Ecus
mod Attacks
mod Startup
mod Stores
mod Services
mod Signals
mod Dashboard
