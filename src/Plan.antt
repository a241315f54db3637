-- ===== src/Plan.antt =====
-- backend/src/tx/tx-plan.builder.ts, with its simulator, the controller that it answers, and the service
-- of api/availability.service.ts by which it gates a plan.
pub mod Availability
pub mod Open
pub mod Assembly
pub mod Builder
pub mod Requests
pub mod Controller
pub mod Gates
pub mod Sound
pub mod Genesis
mod Examples
