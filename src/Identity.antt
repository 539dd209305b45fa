-- ===== src/Identity.antt =====
-- src/features/identity: the settings that the service reads from its environment, the origin guard,
-- the mapping of sessions, and its mail: the templates, the links and the transports.
pub mod Policy
pub mod Tokens
pub mod Origins
pub mod Resend
pub mod Session
pub mod Templates
pub mod ActionUrls
pub mod SmtpTransport
pub mod Mailer
mod Tests
mod MailTests
