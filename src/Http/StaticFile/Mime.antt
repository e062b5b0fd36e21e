-- ===== src/Http/StaticFile/Mime.antt =====
-- The types of files: getMimeType of include/http/StaticFileCache.h and mime of
-- src/http/StaticFileHandler.cpp.
use jingjie_ar.Text.{bytes, Bytes}
use jingjie_ar.Prelude.{
  ◌-◌, Bool, ◌&&◌, Option, none, some, List, [], ◌∷◌, leb, if◌then◌else◌, ◌==◌, nat_eq, list_eq,
  length, drop,
}

unfoldable pub ends_with : Bytes → Bytes → Bool
ends_with suffix path =
    leb (length suffix) (length path) && drop (length path - length suffix) path == suffix

-- path.substr(path.rfind('.'))
unfoldable pub extension : Bytes → Option Bytes
extension [] = none
extension (c ∷ cs) = elim (extension cs) [
  | some e ↦ some e
  | none ↦ if c == 46 then some (c ∷ cs) else none
]

-- The first type of a table whose extension is the given one.
unfoldable pub type_of : Bytes → List (Bytes × Bytes) → Bytes
type_of e [] = bytes "application/octet-stream"
type_of e ((suffix, mime_type) ∷ rest) =
    let others = type_of e rest in if e == suffix then mime_type else others

abbrev pub mime_types : List (Bytes × Bytes)
mime_types =
    (bytes ".html", bytes "text/html; charset=utf-8")
    ∷ (bytes ".htm", bytes "text/html; charset=utf-8")
    ∷ (bytes ".css", bytes "text/css; charset=utf-8")
    ∷ (bytes ".js", bytes "application/javascript; charset=utf-8")
    ∷ (bytes ".json", bytes "application/json; charset=utf-8")
    ∷ (bytes ".xml", bytes "application/xml; charset=utf-8")
    ∷ (bytes ".txt", bytes "text/plain; charset=utf-8")
    ∷ (bytes ".svg", bytes "image/svg+xml")
    ∷ (bytes ".png", bytes "image/png")
    ∷ (bytes ".jpg", bytes "image/jpeg")
    ∷ (bytes ".jpeg", bytes "image/jpeg")
    ∷ (bytes ".gif", bytes "image/gif")
    ∷ (bytes ".ico", bytes "image/x-icon")
    ∷ (bytes ".woff", bytes "font/woff")
    ∷ (bytes ".woff2", bytes "font/woff2")
    ∷ (bytes ".ttf", bytes "font/ttf")
    ∷ (bytes ".wasm", bytes "application/wasm")
    ∷ (bytes ".pdf", bytes "application/pdf")
    ∷ (bytes ".mp4", bytes "video/mp4")
    ∷ (bytes ".webp", bytes "image/webp")
    ∷ []

-- StaticFileCache::getMimeType
unfoldable pub get_mime_type : Bytes → Bytes
unfolding extension type_of
get_mime_type path = elim (extension path) [
  | none ↦ bytes "application/octet-stream"
  | some e ↦ type_of e mime_types
]

-- StaticFileHandler::mime
unfoldable pub mime : Bytes → Bytes
unfolding ends_with get_mime_type
mime path =
    if ends_with (bytes ".webp") path
    then bytes "image/webp"
    else if ends_with (bytes ".glb") path
    then bytes "model/gltf-binary"
    else if ends_with (bytes ".patt") path
    then bytes "text/plain"
    else if ends_with (bytes ".gltf") path
    then bytes "model/gltf+json"
    else if ends_with (bytes ".bin") path
    then bytes "application/octet-stream"
    else get_mime_type path
