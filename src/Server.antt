-- ===== src/Server.antt =====
-- embedded_server: how requests become calls of the commands, results become responses, and messages
-- reach the web clients.
pub mod Parameters
pub mod Responses
pub mod Controller
pub mod Answers
pub mod Connections
pub mod Events
pub mod Messages
pub mod Tests
