-- ===== src/Examples.antt =====
-- The theorems about the server, applied to small concrete states.
mod Shares
mod Boards
mod Sounds
mod Members
mod Handlers
mod Friendships
mod Packets
mod Accounts
mod Balancing
mod Talks
mod Reconnecting
