-- ===== src/Http.antt =====
-- pkg/http: the turns of the chats, which requests ask for concurrently. The encoding of the
-- replies and the routes that only read are not modelled.
pub mod Broadcast
pub mod Requests
pub mod Flight
pub mod LostUpdate
