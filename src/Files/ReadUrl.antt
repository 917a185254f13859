-- ===== src/Files/ReadUrl.antt =====
-- src/files/file-read-url.service.ts. The name of the cloud is configuration.
use Prim.Native.String.{◌++◌}
use market_place.Base.{String, Option, none, some, ◌||◌, not, str_eq, if◌then◌else◌}
use market_place.Base.Text.{starts_with, after_char, before_char, to_lower, is_empty}

-- `subtype?.…`: nothing for an empty one, jpg for jpeg
abbrev format_of : Option String → Option String
format_of none = none
format_of (some rest) =
    let subtype = to_lower (before_char b'+' (before_char b'/' rest)) in
    if is_empty subtype then none else if str_eq subtype "jpeg" then some "jpg" else some subtype

unfoldable pub resolve_format : String → Option String
resolve_format mime_type =
    if not (starts_with "image/" mime_type || starts_with "video/" mime_type)
    then none
    else format_of (after_char b'/' mime_type)

abbrev with_format : String → Option String → String
with_format object_key none = object_key
with_format object_key (some format) = object_key ++ ("." ++ format)

abbrev resource_type : String → String
resource_type mime_type =
    if starts_with "image/" mime_type
    then "image"
    else if starts_with "video/" mime_type
    then "video"
    else "raw"

unfoldable pub build_read_url : String → String → String → String
build_read_url cloud_name object_key mime_type =
    "https://res.cloudinary.com/"
    ++ (cloud_name
        ++ ("/"
            ++ (resource_type mime_type
                ++ ("/upload/" ++ with_format object_key (resolve_format mime_type)))))
