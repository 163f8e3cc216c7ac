-- ===== src/Tests.antt =====
-- Runs at fixed inputs, and the theorems at inputs that meet their hypotheses.
mod Chats
mod Messages
mod Offers
mod Processes
mod Nicks
mod Networks
mod Addresses
mod Sessions
mod Tags
mod Settings
mod Sections
mod Bans
mod Outboxes
mod Accounts
mod Stores
mod Transfers
mod Registries
