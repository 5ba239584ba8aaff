-- ===== src/Gateway/Text.antt =====
-- The functions of package strings that the gateway uses, on texts.
use Prim.Native.String.{◌++◌, len, slice}
use text.Mathlib.Text.{starts_with}
use text.Mathlib.TextPositions.{len-append, slice-append_right, starts_with-append}
use device_management_platfo.Base.{◌≡◌, String, Bool, if◌then◌else◌}

-- strings.HasPrefix
abbrev pub has_prefix : String → String → Bool
has_prefix s prefix = starts_with s prefix

-- strings.TrimPrefix
unfoldable pub trim_prefix : String → String → String
trim_prefix s prefix = if has_prefix s prefix then slice s (len prefix) (len s) else s

pub trim_prefix-append : (prefix rest : String) → trim_prefix (prefix ++ rest) prefix ≡ rest
unfolding trim_prefix
trim_prefix-append prefix rest =
    rw (starts_with-append prefix rest, len-append prefix rest) (slice-append_right prefix rest)

abbrev pub with_slash : String → String
with_slash rest = "/" ++ rest
