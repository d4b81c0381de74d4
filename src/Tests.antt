-- ===== src/Tests.antt =====
-- Concrete inputs, on which the theorems are applied.
mod Pool
mod Program
mod Async
mod Http
mod Server
mod System
mod Lifecycle
mod Login
mod Echo
mod Events
mod Websocket
mod Ami
