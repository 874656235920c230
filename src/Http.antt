-- ===== src/Http.antt =====
-- yugo/http_tools.py: the HTTP GET tool, its destinations and its credentials.
pub mod Origin
pub mod Url
pub mod Address
pub mod Authority
pub mod Credentials
pub mod Headers
pub mod Chain
pub mod Hosts
pub mod Loading
pub mod Labels
pub mod Destination
pub mod Confined
pub mod Bounded
