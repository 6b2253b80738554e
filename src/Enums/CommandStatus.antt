-- ===== src/Enums/CommandStatus.antt =====
-- include/smpp/common/command_status.hpp: the enumerators of command_status, which has the underlying type uint32_t.
use smpp.Common.{ℕ}

pub data CommandStatus : Type 0 where
  rok : CommandStatus
  rinvmsglen : CommandStatus
  rinvcmdlen : CommandStatus
  rinvcmdid : CommandStatus
  rinvbndsts : CommandStatus
  ralybnd : CommandStatus
  rinvprtflg : CommandStatus
  rinvregdlvflg : CommandStatus
  rsyserr : CommandStatus
  rinvsrcadr : CommandStatus
  rinvdstadr : CommandStatus
  rinvmsgid : CommandStatus
  rbindfail : CommandStatus
  rinvpaswd : CommandStatus
  rinvsysid : CommandStatus
  rcancelfail : CommandStatus
  rreplacefail : CommandStatus
  rmsgqful : CommandStatus
  rinvsertyp : CommandStatus
  rinvnumdests : CommandStatus
  rinvdlname : CommandStatus
  rinvdestflag : CommandStatus
  rinvsubrep : CommandStatus
  rinvesmsubmit : CommandStatus
  rcntsubdl : CommandStatus
  rsubmitfail : CommandStatus
  rinvsrcton : CommandStatus
  rinvsrcnpi : CommandStatus
  rinvdstton : CommandStatus
  rinvdstnpi : CommandStatus
  rinvsystyp : CommandStatus
  rinvrepflag : CommandStatus
  rinvnummsgs : CommandStatus
  rthrottled : CommandStatus
  rinvsched : CommandStatus
  rinvexpiry : CommandStatus
  rinvdftmsgid : CommandStatus
  rx_t_appn : CommandStatus
  rx_p_appn : CommandStatus
  rx_r_appn : CommandStatus
  rqueryfail : CommandStatus
  rinvoptparstream : CommandStatus
  roptparnotallwd : CommandStatus
  rinvparlen : CommandStatus
  rmissingoptparam : CommandStatus
  rinvoptparamval : CommandStatus
  rdeliveryfailure : CommandStatus
  runknownerr : CommandStatus
  rinvseqnum : CommandStatus
  rtimeout : CommandStatus
  src_esme_not_bound : CommandStatus
  dst_esme_not_bound : CommandStatus
  max_try_count : CommandStatus
  src_has_no_credit : CommandStatus
  dst_has_no_credit : CommandStatus
  src_in_black_list : CommandStatus
  dst_in_black_list : CommandStatus
  src_not_in_white_list : CommandStatus
  dst_not_in_white_list : CommandStatus
  rinvip : CommandStatus

unfoldable pub to_u32 : CommandStatus → ℕ
to_u32 rok = 0x0000
to_u32 rinvmsglen = 0x0001
to_u32 rinvcmdlen = 0x0002
to_u32 rinvcmdid = 0x0003
to_u32 rinvbndsts = 0x0004
to_u32 ralybnd = 0x0005
to_u32 rinvprtflg = 0x0006
to_u32 rinvregdlvflg = 0x0007
to_u32 rsyserr = 0x0008
to_u32 rinvsrcadr = 0x000a
to_u32 rinvdstadr = 0x000b
to_u32 rinvmsgid = 0x000c
to_u32 rbindfail = 0x000d
to_u32 rinvpaswd = 0x000e
to_u32 rinvsysid = 0x000f
to_u32 rcancelfail = 0x0011
to_u32 rreplacefail = 0x0013
to_u32 rmsgqful = 0x0014
to_u32 rinvsertyp = 0x0015
to_u32 rinvnumdests = 0x0033
to_u32 rinvdlname = 0x0034
to_u32 rinvdestflag = 0x0040
to_u32 rinvsubrep = 0x0042
to_u32 rinvesmsubmit = 0x0043
to_u32 rcntsubdl = 0x0044
to_u32 rsubmitfail = 0x0045
to_u32 rinvsrcton = 0x0048
to_u32 rinvsrcnpi = 0x0049
to_u32 rinvdstton = 0x0050
to_u32 rinvdstnpi = 0x0051
to_u32 rinvsystyp = 0x0053
to_u32 rinvrepflag = 0x0054
to_u32 rinvnummsgs = 0x0055
to_u32 rthrottled = 0x0058
to_u32 rinvsched = 0x0061
to_u32 rinvexpiry = 0x0062
to_u32 rinvdftmsgid = 0x0063
to_u32 rx_t_appn = 0x0064
to_u32 rx_p_appn = 0x0065
to_u32 rx_r_appn = 0x0066
to_u32 rqueryfail = 0x0067
to_u32 rinvoptparstream = 0x00c0
to_u32 roptparnotallwd = 0x00c1
to_u32 rinvparlen = 0x00c2
to_u32 rmissingoptparam = 0x00c3
to_u32 rinvoptparamval = 0x00c4
to_u32 rdeliveryfailure = 0x00fe
to_u32 runknownerr = 0x00ff
to_u32 rinvseqnum = 0x0400
to_u32 rtimeout = 0x0401
to_u32 src_esme_not_bound = 0x0402
to_u32 dst_esme_not_bound = 0x0403
to_u32 max_try_count = 0x0404
to_u32 src_has_no_credit = 0x0405
to_u32 dst_has_no_credit = 0x0406
to_u32 src_in_black_list = 0x0407
to_u32 dst_in_black_list = 0x0408
to_u32 src_not_in_white_list = 0x0409
to_u32 dst_not_in_white_list = 0x040a
to_u32 rinvip = 0x040b
