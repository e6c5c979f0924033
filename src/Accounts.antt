-- ===== src/Accounts.antt =====
-- internal/modules/iam: accounts, their sessions, second factors and passwords.
mod Calls
mod Tables
mod Store
mod Factor
mod Login
mod Reset
mod Guarded
mod Refused
mod Attempts
mod Closed
mod Enrol
mod Examples
mod Sessions
mod Members
mod Invitations
mod Removed
mod Joined
mod MemberExamples
