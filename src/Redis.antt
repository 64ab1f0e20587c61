-- ===== src/Redis.antt =====
-- sandbox/src/redis_client.cpp and sandbox/include/devops/redis_client.hpp: the client of the server.
pub mod Response
pub mod Parse
pub mod Wire
pub mod RoundTrip
pub mod Sound
pub mod Frame
pub mod Socket
pub mod Client
pub mod Commands
pub mod Trickle
mod Tests
