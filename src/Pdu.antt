-- ===== src/Pdu.antt =====
-- include/smpp/pdu: the 21 PDU types.
pub mod Bind
pub mod BindResp
pub mod Submit
pub mod Deliver
pub mod Transfer
pub mod Query
pub mod Replace
