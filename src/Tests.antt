-- ===== src/Tests.antt =====
-- Concrete tables and runs on which the theorems apply.
mod Books
mod Viewers
mod Shoppers
mod Claimants
mod Audience
mod Prizes
mod Subscribers
mod SignedIn
mod Newcomers
mod Ciphers
mod Hours
