-- ===== src/Tests/Boot.antt =====
-- The theorems about the configuration at start, for a command line over a provisioning file.
use compact_phone.Base.{
  z_eq, pos, ◌≡◌, refl, Bool, true, false, some, none, List, [], ◌∷◌, if◌then◌else◌, ◌||◌, arith,
}
use compact_phone.Base.Lists.{All, length}
use compact_phone.Base.Text.{Text, codes, text_eq}
use compact_phone.Base.TextMap.{get, set}
use compact_phone.Boot.{Qt, System, Console}
use compact_phone.Boot.Server.{server_with_optional_port, has_port, occurrences}
use compact_phone.Boot.Object.{Json}
use compact_phone.Boot.Settings.{Parser}
use compact_phone.Boot.CommandLine.{parse_command_line}
use compact_phone.Boot.Complete.{IsStartable}
use compact_phone.Boot.Layers
use compact_phone.Boot.Layers.{combined}
use compact_phone.Boot.Startable
use compact_phone.Boot.Configured
use compact_phone.Boot.Configured.{configured}
use compact_phone.Boot.Ports

mutual
  data Doc : Type 0 where
    nothing : Doc
    word : Text → Doc
    array : Docs → Doc
    object : Fields → Doc

  data Docs : Type 0 where
    no_docs : Docs
    docs : Doc → Docs → Docs

  data Fields : Type 0 where
    no_fields : Fields
    field : Text → Doc → Fields → Fields

abbrev elements : Docs → List Doc
elements no_docs = []
elements (docs d ds) = d ∷ elements ds

abbrev find : Text → Fields → Doc
find key no_fields = nothing
find key (field k d fs) = let rest = find key fs in if text_eq k key then d else rest

abbrev has : Text → Fields → Bool
has key no_fields = false
has key (field k d fs) = text_eq k key || has key fs

abbrev contains : Text → Doc → Bool
contains key (object fs) = has key fs
contains key d = false

abbrev member : Text → Doc → Doc
member key (object fs) = find key fs
member key d = nothing

abbrev is_word : Doc → Bool
is_word (word s) = true
is_word d = false

abbrev to_text : Doc → Text
to_text (word s) = s
to_text d = []

abbrev is_array : Doc → Bool
is_array (array ds) = true
is_array d = false

abbrev to_array : Doc → List Doc
to_array (array ds) = elements ds
to_array d = []

abbrev is_object : Doc → Bool
is_object (object fs) = true
is_object d = false

-- An account that is whole, and one without a server.
abbrev document : Doc
document = object (
    field (codes "accounts")
      (array (
        docs
          (object (
            field (codes "user") (word (codes "ann"))
              (field (codes "server") (word (codes "pbx")) no_fields)))
          (docs (object (field (codes "user") (word (codes "bob")) no_fields)) no_docs)))
      no_fields)

abbrev json : Json Doc
json = record {
  is_string = is_word;
  to_text = to_text;
  to_bool = λ fallback d. fallback;
  to_integer = λ fallback d. fallback;
  is_array = is_array;
  to_array = to_array;
  is_object = is_object;
  contains = contains;
  member = member;
  root = λ content. some document;
}

abbrev pub qt : Qt
qt = record { trimmed = λ s. s; to_lower = λ s. s; to_int = λ s. pos 0; number = λ n. [] }

abbrev system : System (List Text)
system = record {
  is_unix = true;
  data_files = [];
  variable = λ name. none;
  exists = λ path. true;
  contents = λ path. some [];
  first_line = λ path. none;
  read_line = λ lines. ([], lines);
}

abbrev console : Console (List Text)
console = record { input = []; warnings = [] }

-- `--sip-server pbx --sip-user cid`
abbrev parser : Parser
parser = record {
  is_set = λ name. text_eq name (codes "sip-server") || text_eq name (codes "sip-user");
  value = λ name.
      if text_eq name (codes "sip-server")
      then codes "pbx"
      else if text_eq name (codes "sip-user")
      then codes "cid"
      else [];
}

parse_command_line-All_example :
    All (IsStartable qt) (parse_command_line qt parser system json console).0.accounts
parse_command_line-All_example = Startable.parse_command_line-All json qt system parser console

parse_command_line-combined_example : parse_command_line qt parser system json console ≡ (
  combined (Layers.layers json qt system parser console).0,
  (Layers.layers json qt system parser console).1,
)
parse_command_line-combined_example =
    Layers.parse_command_line-combined json qt system parser console

parse_command_line-configured_example :
    parse_command_line qt (configured parser) system json console
    ≡ parse_command_line qt parser system json console
parse_command_line-configured_example =
    Configured.parse_command_line-configured json qt system parser console

server_with_optional_port-has_port_example :
    has_port (server_with_optional_port qt (codes "2001:db8::1") (codes "5070")) ≡ true
unfolding occurrences
server_with_optional_port-has_port_example =
    Ports.server_with_optional_port-has_port qt (codes "2001:db8::1") (codes "5070") refl refl refl
      (λ h. ground arith)

-- One account of the file, whose other one is dropped, and one of the command line.
two_accounts : length (parse_command_line qt parser system json console).0.accounts ≡ 2
unfolding parse_command_line has_port occurrences z_eq get set
two_accounts = refl
