-- ===== src/Upload/Mime.antt =====
-- The type gate of an assembled upload: the allow list and extension map of
-- src/modules/upload/media.pipeline.ts, and the decision of `validateAssembledType`.
use Prim.Native.Char.{code}
use Prim.Native.String.{String}
use text.Mathlib.Text.{◌==◌ as str_eq}
use mothercare_backend.Prelude.{
  ℕ, ◌+◌, Option, none, some, Bool, true, false, ◌&&◌, ◌||◌, List, [], ◌∷◌, ◌++◌, ◌==◌, leb, get_or,
  if◌then◌else◌,
}

-- `ALLOWED_MIMES`
allowed_mimes : List String
allowed_mimes =
    "image/jpeg" ∷ "image/png" ∷ "image/webp" ∷ "image/gif" ∷ "image/bmp" ∷ "image/tiff"
    ∷ "image/x-icon" ∷ "image/vnd.microsoft.icon" ∷ "application/pdf" ∷ "application/rtf"
    ∷ "application/msword"
    ∷ "application/vnd.openxmlformats-officedocument.wordprocessingml.document"
    ∷ "application/vnd.ms-excel"
    ∷ "application/vnd.openxmlformats-officedocument.spreadsheetml.sheet"
    ∷ "application/vnd.ms-excel.sheet.macroEnabled.12"
    ∷ "application/vnd.ms-excel.sheet.binaryMacroEnabled.12"
    ∷ "application/vnd.openxmlformats-officedocument.spreadsheetml.template"
    ∷ "application/vnd.ms-excel.template.macroEnabled.12"
    ∷ "application/vnd.ms-excel.addin.macroEnabled.12" ∷ "application/vnd.ms-powerpoint"
    ∷ "application/vnd.openxmlformats-officedocument.presentationml.presentation"
    ∷ "application/vnd.oasis.opendocument.text" ∷ "application/vnd.oasis.opendocument.spreadsheet"
    ∷ "application/vnd.oasis.opendocument.presentation" ∷ "text/plain" ∷ "text/csv"
    ∷ "text/markdown" ∷ "text/css" ∷ "text/yaml" ∷ "application/json" ∷ "application/x-yaml"
    ∷ "application/x-toml" ∷ "application/zip" ∷ "application/x-rar-compressed"
    ∷ "application/x-7z-compressed" ∷ "application/x-tar" ∷ "application/gzip" ∷ "font/ttf"
    ∷ "font/otf" ∷ "font/woff" ∷ "font/woff2" ∷ "video/mp4" ∷ "video/webm" ∷ "video/x-msvideo"
    ∷ "video/quicktime" ∷ "audio/mpeg" ∷ "audio/mp4" ∷ "audio/ogg" ∷ "audio/webm" ∷ "audio/aac"
    ∷ "audio/x-m4a" ∷ "audio/wav" ∷ "audio/x-wav" ∷ []

-- `EXT_MAP`
ext_map : List (String × String)
ext_map =
    ("jpg", "image/jpeg")
    ∷ ("jpeg", "image/jpeg")
    ∷ ("png", "image/png")
    ∷ ("webp", "image/webp")
    ∷ ("gif", "image/gif")
    ∷ ("bmp", "image/bmp")
    ∷ ("tiff", "image/tiff")
    ∷ ("tif", "image/tiff")
    ∷ ("ico", "image/x-icon")
    ∷ ("pdf", "application/pdf")
    ∷ ("rtf", "application/rtf")
    ∷ ("doc", "application/msword")
    ∷ ("docx", "application/vnd.openxmlformats-officedocument.wordprocessingml.document")
    ∷ ("xls", "application/vnd.ms-excel")
    ∷ ("xlsx", "application/vnd.openxmlformats-officedocument.spreadsheetml.sheet")
    ∷ ("xlsm", "application/vnd.ms-excel.sheet.macroEnabled.12")
    ∷ ("xlsb", "application/vnd.ms-excel.sheet.binaryMacroEnabled.12")
    ∷ ("xltx", "application/vnd.openxmlformats-officedocument.spreadsheetml.template")
    ∷ ("xltm", "application/vnd.ms-excel.template.macroEnabled.12")
    ∷ ("xlt", "application/vnd.ms-excel")
    ∷ ("xlam", "application/vnd.ms-excel.addin.macroEnabled.12")
    ∷ ("ppt", "application/vnd.ms-powerpoint")
    ∷ ("pptx", "application/vnd.openxmlformats-officedocument.presentationml.presentation")
    ∷ ("odt", "application/vnd.oasis.opendocument.text")
    ∷ ("ods", "application/vnd.oasis.opendocument.spreadsheet")
    ∷ ("odp", "application/vnd.oasis.opendocument.presentation")
    ∷ ("txt", "text/plain")
    ∷ ("csv", "text/csv")
    ∷ ("md", "text/markdown")
    ∷ ("css", "text/css")
    ∷ ("json", "application/json")
    ∷ ("yaml", "application/x-yaml")
    ∷ ("yml", "application/x-yaml")
    ∷ ("toml", "application/x-toml")
    ∷ ("zip", "application/zip")
    ∷ ("rar", "application/x-rar-compressed")
    ∷ ("7z", "application/x-7z-compressed")
    ∷ ("tar", "application/x-tar")
    ∷ ("gz", "application/gzip")
    ∷ ("tgz", "application/gzip")
    ∷ ("mp4", "video/mp4")
    ∷ ("webm", "video/webm")
    ∷ ("avi", "video/x-msvideo")
    ∷ ("mov", "video/quicktime")
    ∷ ("mp3", "audio/mpeg")
    ∷ ("m4a", "audio/x-m4a")
    ∷ ("ogg", "audio/ogg")
    ∷ ("wav", "audio/wav")
    ∷ ("ttf", "font/ttf")
    ∷ ("otf", "font/otf")
    ∷ ("woff", "font/woff")
    ∷ ("woff2", "font/woff2")
    ∷ []

contains : String → List String → Bool
contains s [] = false
contains s (t ∷ ts) = str_eq s t || contains s ts

-- `ALLOWED_MIMES.has(mime)`
unfoldable pub is_allowed_mime : String → Bool
unfolding contains allowed_mimes
is_allowed_mime mime = contains mime allowed_mimes

abbrev codes : String → List ℕ
codes String.[] = []
codes (String.◌∷◌ c s) = code c ∷ codes s

same_codes : List ℕ → List ℕ → Bool
same_codes [] [] = true
same_codes (a ∷ as') (b ∷ bs) = a == b && same_codes as' bs
same_codes _ _ = false

-- `toLowerCase` on the letters that the extensions of the map are made of.
lower_code : ℕ → ℕ
lower_code c = if leb b'A' c && leb c b'Z' then c + 32 else c

-- `split('.').pop()?.toLowerCase()`: the code points behind the last dot, or all of them.
extension_from : List ℕ → List ℕ → List ℕ
extension_from [] seen = seen
extension_from (c ∷ cs) seen =
    extension_from cs (if c == b'.' then [] else seen ++ lower_code c ∷ [])

lookup_ext : List ℕ → List (String × String) → Option String
lookup_ext ext [] = none
lookup_ext ext ((k, mime) ∷ m) = if same_codes (codes k) ext then some mime else lookup_ext ext m

-- `EXT_MAP[fileExt] || 'application/octet-stream'`; an empty extension is no key of the map.
unfoldable pub mime_of_filename : String → String
unfolding extension_from lookup_ext ext_map same_codes lower_code
mime_of_filename filename =
    get_or (lookup_ext (extension_from (codes filename) []) ext_map) "application/octet-stream"

-- `mime.split('/')[0]`
unfoldable pub top_of : String → String
top_of String.[] = ""
top_of (String.◌∷◌ c s) = let rest = top_of s in if code c == b'/' then "" else String.◌∷◌ c rest

-- The type that the gate goes by: the sniffed one if it is allowed, else the extension's.
unfoldable pub effective_mime : Option String → String → String
unfolding is_allowed_mime mime_of_filename
effective_mime none filename = mime_of_filename filename
effective_mime (some mime) filename =
    if is_allowed_mime mime then mime else mime_of_filename filename

-- Whether `validateAssembledType` lets the object pass.
unfoldable pub type_passes : Option String → String → String → String → Bool
unfolding effective_mime is_allowed_mime top_of
type_passes sniffed purpose filename declared =
    let mime = effective_mime sniffed filename in
    let voice_ok =
      str_eq purpose "voice_note"
      && (str_eq mime "audio/mp4" || str_eq mime "video/mp4" || str_eq (top_of mime) "audio") in
    is_allowed_mime mime && (str_eq (top_of declared) (top_of mime) || voice_ok)
