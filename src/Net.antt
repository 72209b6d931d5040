-- ===== src/Net.antt =====
-- coroutine_framework/net_module: endpoints, the package header, remote calls and the service that
-- matches responses and timeouts with waiting coroutines.
pub mod EndPoint
pub mod Header
pub mod Rpc
pub mod Mapper
pub mod Receive
pub mod Wire
pub mod Delivery
pub mod Response
pub mod Results
pub mod Service
pub mod Waiting
pub mod Liveness
pub mod Runs
pub mod CoRpc
pub mod Answers
pub mod Buffer
pub mod Address
pub mod Sending
pub mod Defined
pub mod Hostile
pub mod Received
