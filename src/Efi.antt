-- ===== src/Efi.antt =====
-- The EFI_STATUS codes that the modelled functions return (MdePkg's UefiBaseType.h names them).
use bemi_bios.Prelude.{Bool, true, false}

pub data EfiStatus : Type 0 where
  success : EfiStatus
  not_ready : EfiStatus
  invalid_parameter : EfiStatus
  out_of_resources : EfiStatus
  unsupported : EfiStatus
  access_denied : EfiStatus
  timeout : EfiStatus
  device_error : EfiStatus
  warn_not_found : EfiStatus
  buffer_too_small : EfiStatus
  not_found : EfiStatus
  no_media : EfiStatus

-- EFI_ERROR
abbrev pub is_error : EfiStatus → Bool
is_error success = false
is_error warn_not_found = false
is_error not_ready = true
is_error invalid_parameter = true
is_error out_of_resources = true
is_error unsupported = true
is_error access_denied = true
is_error timeout = true
is_error device_error = true
is_error buffer_too_small = true
is_error not_found = true
is_error no_media = true
