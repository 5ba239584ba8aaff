-- ===== src/Gateway.antt =====
-- backend/internal/access/gateway.go: the gateway between a browser and the web interface of a
-- device.
pub mod Text
pub mod Upstream
pub mod Location
pub mod RoundTrip
pub mod Serve
pub mod Access
pub mod Headers
pub mod Crossing
pub mod Connections
pub mod Revocation
