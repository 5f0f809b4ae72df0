-- ===== src/Tests.antt =====
-- Runs of the models of magicvault-core/src at concrete inputs.
mod Codes
mod Values
mod Grants
mod Vaults
mod Tokens
mod Scopes
mod Scopings
mod Writers
mod Sessions
