-- ===== src/Types.antt =====
-- The data types of src/ic-websocket-cdk/src/types.rs. They are generic in the type `P` of
-- principals, which the library takes from the crate candid.
pub mod Messages
pub mod Gateway
