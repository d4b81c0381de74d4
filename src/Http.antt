-- ===== src/Http.antt =====
-- amiproc/http.h, amiproc/http.cpp and amiproc/http_routes.cpp: the HTTP front of the server.
pub mod Types
pub mod Base64
pub mod UrlDecode
pub mod Query
pub mod Request
pub mod Response
pub mod Routes
pub mod Server
pub mod Handler
