-- ===== src/Examples.antt =====
-- The theorems at work on concrete rows: a report on its way through the house.
mod Data
mod Referring
mod Tree
mod Rights
mod Moves
mod Partner
mod Route
mod Creating
mod Limit
mod Versions
mod Agenda
mod Sitting
mod Alerts
mod Shares
mod Register
mod Units
