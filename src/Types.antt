-- ===== src/Types.antt =====
-- The enumerations of the network and of the connection manager: include/connui-cellular-net.h and
-- include/connui-cellular-connmgr.h.

-- connui_net_registration_status
pub data RegStatus : Type 0 where
  unknown unregistered home searching denied roaming : RegStatus

-- connui_net_radio_access_tech
pub data Rat : Type 0 where
  rat_unknown gsm umts lte nr : Rat

-- connui_connmgr_bearer
pub data Bearer : Type 0 where
  bearer_unknown no_bearer gprs edge umts_bearer hspda hsupa hspa lte_bearer : Bearer
