-- ===== src/Ami.antt =====
-- amiproc/amiproc.h and amiproc/amiproc.cpp: the connection to the Asterisk Manager Interface.
pub mod Events
pub mod Message
pub mod Event
pub mod Handler
pub mod Login
pub mod Actions
pub mod ProcessEvents
