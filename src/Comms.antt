-- ===== src/Comms.antt =====
-- osss-ucx/src/shmemc/ucx/comms.c: the communications layer over UCX.
pub mod Address
pub mod Ucx
pub mod Ops
