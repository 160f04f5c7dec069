-- ===== src/Base/Outcome.antt =====
-- `rstatus_t` of nc_core.h: the status that most functions of the proxy return.
-- `NC_EAGAIN` is modelled only where a function tests for it.
pub data Status : Type 0 where
  nc_ok nc_error nc_enomem : Status
