-- ===== src/Version.antt =====
-- version.go.
use wrapguard.Prelude.{◌++◌, Text, codes}

-- The constants `Version` and `AppName`.
abbrev pub version : Text
version = codes "v1.0.0-dev"

abbrev pub app_name : Text
app_name = codes "WrapGuard"

abbrev pub get_version : Text
get_version = version

abbrev pub get_full_version : Text
get_full_version = app_name ++ codes " " ++ version
