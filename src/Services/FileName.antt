-- ===== src/Services/FileName.antt =====
-- `sanitizeFileName` of internal/services/avatar.go.
pub mod Safe
use goprofile.Prelude.{◌||◌, Bytes, text, [], ◌++◌, length, take, ltb, if◌then◌else◌, ◌==◌, text_eq}
use goprofile.Text.{trim_space, replace_all}
use goprofile.Text.Path.{base}

unfoldable pub clip : Bytes → Bytes
clip name = if ltb 255 (length name) then take 255 name else name

unfoldable pub sanitize_file_name : Bytes → Bytes → Bytes
sanitize_file_name name ext =
    let cleaned = replace_all (base (trim_space name)) b'\\' b'_' in
    if cleaned == [] || cleaned == text "." || cleaned == text ".."
    then text "avatar" ++ ext
    else clip cleaned
