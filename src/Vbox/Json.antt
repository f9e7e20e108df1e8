-- ===== src/Vbox/Json.antt =====
-- ToJSON, WriteToFile and FromJSON of vbox/vbox.go. A file is its text, and `none` where it is missing.
use Prim.Native.Char.{code}
use iotit.Base.{
  ℕ, ◌+◌, ltb, String, ◌<>◌, Option, none, some, List, [], ◌∷◌, str_eq, ◌==◌, if◌then◌else◌, map,
}
use iotit.GoStrings.{push_head}
use iotit.Vbox.Defs.{Config}

-- The package encoding/json, for a Config. Unmarshal changes the fields of a Config that the text
-- gives, whatever error it returns; an interface stays the reference that it was.
pub record Json : Type 0 where
  pub marshal : Config → Option String
  pub unmarshal : String → Config → Config

-- The lines of a text, with the carriage return that may stand at their end.
unfoldable pub raw_lines : String → List String
raw_lines String.[] = []
raw_lines (String.◌∷◌ c s) =
    let rest = raw_lines s in if code c == 10 then "" ∷ rest else push_head c rest

unfoldable pub drop_return : String → String
drop_return String.[] = ""
drop_return (String.◌∷◌ c String.[]) = if code c == 13 then "" else String.◌∷◌ c ""
drop_return (String.◌∷◌ c (String.◌∷◌ d s)) = String.◌∷◌ c (drop_return (String.◌∷◌ d s))

-- How many bytes a text has in UTF-8.
unfoldable pub byte_length : String → ℕ
byte_length String.[] = 0
byte_length (String.◌∷◌ c s) =
    (if ltb (code c) 128
      then 1
      else if ltb (code c) 2048
      then 2
      else if ltb (code c) 65536
      then 3
      else 4)
    + byte_length s

-- bufio.MaxScanTokenSize: the buffer of a Scanner, in which a line must fit with its line feed.
abbrev pub max_token : ℕ
max_token = 65536

-- Scan stops at the first line that is too long.
unfoldable pub scanned : List String → List String
scanned [] = []
scanned (line ∷ lines) =
    let rest = scanned lines in if ltb (byte_length line) max_token then line ∷ rest else []

abbrev pub lines_of : Option String → List String
lines_of none = []
lines_of (some s) = map drop_return (scanned (raw_lines s))

abbrev pub or_empty : Option String → String
or_empty none = ""
or_empty (some s) = s

module _ (json : Json) where
  -- ToJSON, which is empty on an error
  unfoldable pub to_json : Config → String
  to_json vc = or_empty (json.marshal vc)

  -- WriteToFile, where the file can be opened: a line at the end of a file that is there, or a new
  -- file, which stays empty where there is no text.
  unfoldable pub write_to_file : Config → Option String → Option String
  unfolding to_json
  write_to_file vc (some content) = some (content <> (to_json vc <> "\n"))
  write_to_file vc none = some (if str_eq (to_json vc) "" then "" else to_json vc <> "\n")

  -- The loop of FromJSON. One Config takes the lines in turn, so that a field that a line does not
  -- give keeps what an earlier line gave.
  unfoldable pub read_configs : Config → List String → List Config
  read_configs vc [] = []
  read_configs vc (line ∷ lines) =
      json.unmarshal line vc ∷ read_configs (json.unmarshal line vc) lines

  -- FromJSON
  unfoldable pub from_json : Config → Option String → List Config
  unfolding read_configs
  from_json vc file = read_configs vc (lines_of file)
