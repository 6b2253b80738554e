-- ===== src/Enums.antt =====
-- The enums of include/smpp/common and include/smpp/param.
pub mod CommandStatus
pub mod OparamTag
pub mod Ton
pub mod Npi
pub mod ReplaceIfPresentFlag
pub mod DataCoding
pub mod InterfaceVersion
pub mod MessageState
pub mod MessagingMode
pub mod MessageType
pub mod GsmNetworkFeatures
pub mod SmscDeliveryReceipt
pub mod SmeOriginatedAck
pub mod IntermediateNotification
pub mod Tables
pub mod Flags
