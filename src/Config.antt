-- ===== src/Config.antt =====
-- nfsbroker/nfsbroker_config.go: the mount options that operators allow and force, and those that
-- a bind request may set. Definitions of the types and constructors; the parsing of the operator's
-- flags is in Config/Read, that of a request in Config/Entries.
pub mod Read
pub mod Entries
pub mod Accept
pub mod Map
pub mod Query
pub mod Mount
pub mod Copying
pub mod Refusal
pub mod Order
pub mod Force
pub mod Defaults
pub mod Print
use nfsbroker.Base.{String, Bool, false, List, []}
use nfsbroker.Base.Dict.{Dict, copy_into}

-- `ConfigDetails`. The maps are never nil: each constructor below makes both.
pub record ConfigDetails : Type 0 where
  pub allowed : List String
  pub forced : Dict String
  pub options : Dict String

-- `Config`
pub record Config : Type 0 where
  pub mount : ConfigDetails
  pub sloppy_mount : Bool

-- `NewNfsBrokerConfig`
unfoldable pub new_config : ConfigDetails → Config
new_config mount_details = record { mount = mount_details; sloppy_mount = false }

-- `NewNfsBrokerConfigDetails`
unfoldable pub new_config_details : ConfigDetails
new_config_details = record { allowed = []; forced = []; options = [] }

-- `(*ConfigDetails).Copy`: entry by entry into fresh maps.
unfoldable pub copy_details : ConfigDetails → ConfigDetails
unfolding copy_into
copy_details rhs = record {
  allowed = rhs.allowed;
  forced = copy_into rhs.forced [];
  options = copy_into rhs.options [];
}

-- `(*Config).Copy`
unfoldable pub copy : Config → Config
unfolding copy_details
copy rhs = record { mount = copy_details rhs.mount; sloppy_mount = rhs.sloppy_mount }
