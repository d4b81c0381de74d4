-- ===== src/Websocket.antt =====
-- amiproc/websocket.cpp: the frames that the program writes, and the handler of a websocket.
pub mod Frames
pub mod Receive
pub mod Handler
pub mod Alive
