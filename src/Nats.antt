-- ===== src/Nats.antt =====
-- src/network/nats/nats_manager.cpp: the subjects and inboxes of messages over NATS. A text is the list
-- of the codes of its characters.
pub mod Wildcards
pub mod Tokens
pub mod Requests
pub mod Once
pub mod Inboxes
pub mod Names
mod Tests
