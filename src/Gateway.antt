-- ===== src/Gateway.antt =====
-- components/apigateway: the public routes over the ports of the services.
pub mod Contracts
pub mod Ports
pub mod Fakes
pub mod Routes
pub mod Bearer
pub mod Gate
mod Tests
