-- ===== src/Vhsm.antt =====
-- crates/vhsm-daemon and the protocol of crates/kms-core/src/hsm: the process that holds the master
-- key. `Handler` is the request handler, split where it lets go of the state's lock; the children
-- of `Handler`, `Tasks` and `Frames` hold the proofs.
pub mod Protocol
pub mod State
pub mod Crypto
pub mod Certificate
pub mod Handler
pub mod Tasks
pub mod Unseal
pub mod Access
pub mod Secrets
pub mod DataKeys
pub mod Chain
pub mod Frames
