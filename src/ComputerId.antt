-- ===== src/ComputerId.antt =====
-- `ComputerID` of src/ComputerID.h, src/ComputerIDPosix.cpp and src/ComputerIDWindows.cpp. The hash
-- of Crypto++, the name of the host and the output of a pointer are parameters.
pub mod Mac
use ash_coin.Base.{Bool, false, [], ◌++◌, Text, if◌then◌else◌}

pub record ComputerId : Type 0 where
  pub unique_per_process : Bool
  pub custom_data : Text

abbrev pub new_computer_id : ComputerId
new_computer_id = record { unique_per_process = false; custom_data = [] }

unfoldable pub set_custom_data : Text → ComputerId → ComputerId
set_custom_data v c = record c { custom_data = v }

unfoldable pub set_unique_per_process : Bool → ComputerId → ComputerId
set_unique_per_process v c = record c { unique_per_process = v }

-- `getUUID`; custom data that is empty adds nothing.
unfoldable pub get_uuid : (sha1 : Text → Text) → (host_name this : Text) → ComputerId → Text
get_uuid sha1 host_name this c =
    sha1 (host_name ++ ((if c.unique_per_process then this else []) ++ c.custom_data))
