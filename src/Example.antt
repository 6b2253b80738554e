-- ===== src/Example.antt =====
-- example/client.cpp and example/server.cpp, and the conversation of the two programs.
pub mod Program
pub mod Client
pub mod Server
pub mod Conversation
