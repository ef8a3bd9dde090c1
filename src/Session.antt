-- ===== src/Session.antt =====
-- agent/session.py: the session catalogue and the transcript of a saved conversation.
pub mod Status
pub mod Transcript
pub mod Restored
pub mod Catalogue
pub mod Lookup
