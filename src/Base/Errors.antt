-- ===== src/Base/Errors.antt =====
-- base_c/include/embb/base/c/errors.h: the codes that base_c returns.
pub data Errors : Type 0 where
  success nomem timedout busy overflow underflow error : Errors
