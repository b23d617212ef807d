-- ===== src/Tests/Files.antt =====
-- Names of files and programs on concrete inputs.
use lumo_compositor.Base.{all, true, some, ◌≡◌, refl, arith}
use lumo_compositor.CString.{Bytes, codes}
use lumo_compositor.Bridge.{rotation_90, rotation_name}
use lumo_compositor.Profile.{profile_basename, sanitize_name}
use lumo_compositor.Profile.Names.{is_file_char, profile_basename-fits}
use lumo_compositor.Launch.{resolve_binary_path, has_path_separator}
use lumo_compositor.Launch.Beside.{resolve_binary_path-beside}

-- A name with a path in it.
abbrev device : Bytes
device = codes "../Goodix  TS/"

device_named :
    profile_basename 160 device 1046 911 rotation_90 ≡ some (codes "goodix-ts-0416-038f-90.json")
unfolding profile_basename sanitize_name rotation_name
device_named = refl

profile_basename-fits_example :
    (name : Bytes) × (profile_basename 160 device 1046 911 rotation_90 ≡ some name)
    × (all is_file_char name ≡ true)
profile_basename-fits_example = profile_basename-fits device 1046 911 rotation_90

resolve_binary_path-beside_example :
    resolve_binary_path 4096 (some (codes "lumo-app")) (some (codes "/usr/bin/lumo-compositor"))
    ≡ some (codes "/usr/bin/lumo-app")
unfolding has_path_separator
resolve_binary_path-beside_example =
    resolve_binary_path-beside 4096 (codes "/usr/bin") (codes "lumo-compositor") b'l'
      (codes "umo-app") refl refl (omega arith) (omega arith)
